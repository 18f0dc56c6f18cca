-- ===== src/Controllers/Reconciler/Done.antt =====
-- controllers/undermoon_controller.go: what a run that ends without a requeue has established.
use undermoon_operator.Prelude.{◌*◌, ◌≡◌, ◌≢◌, sym, ◌∙◌, arith, Bytes, Bool, false, List, [], some}
use native.Mathlib.Decide.{ℕ_discrete}
use undermoon_operator.Controllers.Types.{Undermoon, StatefulSet}
use undermoon_operator.Controllers.Io.{Outside, World, ok, is_retry, ClusterInfo, ◌>>=◌}
use undermoon_operator.Controllers.MetaController.{reconcile_meta}
use undermoon_operator.Controllers.StorageController.{scale_down_storage_stateful_set}
use undermoon_operator.Controllers.StorageController.Sends.{scale_down_needs_slots}
use undermoon_operator.Controllers.Broker.{broker_stateful_set_changed}
use undermoon_operator.Controllers.Coordinator.{coordinator_stateful_set_changed}
use undermoon_operator.Controllers.Storage.{storage_stateful_set_changed}
use undermoon_operator.Controllers.Reconciler.Order.{trigger_rolling_update-settled}
use undermoon_operator.Controllers.Reconciler.{
  Config, UmResource, done, requeue, retry_after, trigger_rolling_update, finish_scaling,
}

differ : ok (requeue 10) ≡ ok done → ⊥
differ h = ground (arith, h)

module _ {E : Type 0} (o : Outside E) (config : Config) (r : UmResource) (cr : Undermoon)
    (master : Bytes) (replicas : List Bytes) (all_ready : Bool) (w : World E) where
  not_settled :
      (info : ClusterInfo)
      → (reconcile_meta o master replicas [] cr all_ready w).0 ≡ ok info
      → info.node_number_with_slots ≢ cr.spec.chunk_number * 4
      → (finish_scaling o config r cr master replicas all_ready w).0 ≡ ok (requeue 10)
  unfolding finish_scaling retry_after is_retry ◌>>=◌
  not_settled info h ne = ground (
    arith,
    h,
    scale_down_needs_slots o cr r.storage_stateful_set info
        (reconcile_meta o master replicas [] cr all_ready w).1 ne,
  )

  updates_through :
      (info : ClusterInfo) (scaled : Undermoon × StatefulSet)
      → (reconcile_meta o master replicas [] cr all_ready w).0 ≡ ok info
      → (scale_down_storage_stateful_set o cr r.storage_stateful_set info
          (reconcile_meta o master replicas [] cr all_ready w).1).0
        ≡ ok scaled
      → (finish_scaling o config r cr master replicas all_ready w).0 ≡ ok done
      → (trigger_rolling_update o config r scaled.1 scaled.0
          (scale_down_storage_stateful_set o cr r.storage_stateful_set info
            (reconcile_meta o master replicas [] cr all_ready w).1).1).0
        ≡ ok tt
  unfolding finish_scaling retry_after is_retry ◌>>=◌
  updates_through info scaled h s d = ground (arith, h, s, d)

  slots :
      (info : ClusterInfo)
      → (reconcile_meta o master replicas [] cr all_ready w).0 ≡ ok info
      → (finish_scaling o config r cr master replicas all_ready w).0 ≡ ok done
      → info.node_number_with_slots ≡ cr.spec.chunk_number * 4
  slots info h d = elim (ℕ_discrete info.node_number_with_slots (cr.spec.chunk_number * 4)) [
    | yes e ↦ e
    | no ne ↦ absurd (differ (sym (not_settled info h ne) ∙ d))
  ]

  -- If the last part of a run ends without a requeue and without an error, then the report that it
  -- has fetched from the brokers gives four nodes with slots for each specified chunk, and the
  -- change detections (`brokerStatefulSetChanged`, `coordinatorStatefulSetChanged`,
  -- `storageStatefulSetChanged`) answer no for the three StatefulSets, the storage's as scaling has
  -- left it.
  pub finish_scaling_done :
      (info : ClusterInfo) (scaled : Undermoon × StatefulSet)
      → (reconcile_meta o master replicas [] cr all_ready w).0 ≡ ok info
      → (scale_down_storage_stateful_set o cr r.storage_stateful_set info
          (reconcile_meta o master replicas [] cr all_ready w).1).0
        ≡ ok scaled
      → (finish_scaling o config r cr master replicas all_ready w).0 ≡ ok done
      → (info.node_number_with_slots ≡ cr.spec.chunk_number * 4)
        × (broker_stateful_set_changed config.quantity_equal scaled.0 r.broker_stateful_set
            ≡ some false)
        × (coordinator_stateful_set_changed config.quantity_equal scaled.0
              r.coordinator_stateful_set
            ≡ some false)
        × (storage_stateful_set_changed config.quantity_equal scaled.0 scaled.1 ≡ some false)
  finish_scaling_done info scaled h s d =
      let settled =
        trigger_rolling_update-settled o config r scaled.1 scaled.0
          (scale_down_storage_stateful_set o cr r.storage_stateful_set info
            (reconcile_meta o master replicas [] cr all_ready w).1).1
          (updates_through info scaled h s d) in
      (slots info h d, settled.0, settled.1, settled.2)
