-- ===== src/Controllers/Reconciler.antt =====
-- controllers/undermoon_controller.go: one run of the reconciler.
pub mod Versions
pub mod Order
pub mod Done
use undermoon_operator.Prelude.{
  ℕ, Option, none, some, List, [], ◌∷◌, Bytes, Bool, true, false, not, if◌then◌else◌,
}
use undermoon_operator.Controllers.Types.{Opaque, Undermoon, StatefulSet, Service}
use undermoon_operator.Controllers.Io.{
  Io, World, Outside, Result, ok, err, Error, retry_reconciliation, panic, is_retry, ClusterInfo,
  pure, raise, handle, ask, request, lift, ◌>>=◌, ◌>>◌,
}
use undermoon_operator.Controllers.Broker.{broker_stateful_set_changed}
use undermoon_operator.Controllers.Coordinator.{coordinator_stateful_set_changed}
use undermoon_operator.Controllers.Storage.{storage_stateful_set_changed}
use undermoon_operator.Controllers.Resources.{
  is_not_found, create_meta, create_broker, create_coordinator,
}
use undermoon_operator.Controllers.MetaController.{reconcile_meta, change_meta}
use undermoon_operator.Controllers.StorageController.{
  create_storage, storage_all_ready, storage_all_ready_and_stable, get_server_proxies,
  scale_down_storage_stateful_set, trigger_storage_rolling_update,
}
use undermoon_operator.Controllers.BrokerController.{
  broker_ready, broker_all_ready, coordinator_ready, coordinator_all_ready, reconcile_master,
  config_set_broker, trigger_broker_rolling_update, trigger_coordinator_rolling_update,
}

-- What `Reconcile` returns: nothing to do, a requeue after some seconds, or an error.
pub data Outcome : Type 0 where
  done : Outcome
  requeue : ℕ → Outcome
  failed : Error → Outcome

-- `umResource`, with the custom resource as creating the objects has left it.
pub record UmResource : Type 0 where
  pub broker_stateful_set : StatefulSet
  pub coordinator_stateful_set : StatefulSet
  pub storage_stateful_set : StatefulSet
  pub broker_service : Service
  pub coordinator_service : Service
  pub storage_service : Service
  pub cr : Undermoon

-- What the process is configured with, and the library functions that it is given.
pub record Config : Type 0 where
  pub operator_namespace : Bytes
  pub quantity_equal : Opaque → Opaque → Bool
  pub compress : Bytes → Result Bytes

-- The answer to an error: a requeue after `seconds` if it asks for a retry.
unfoldable pub retry_after : ℕ → Error → Outcome
retry_after seconds e = if is_retry e then requeue seconds else failed e

unfoldable pub need : Option Bool → Result Bool
need none = err panic
need (some b) = ok b

module _ {E : Type 0} (o : Outside E) (config : Config) where
  unfoldable pub create_resources : Undermoon → Io E UmResource
  create_resources cr =
      create_meta o config.compress cr
      >> (create_broker o config.operator_namespace cr >>= λ broker.
          create_coordinator o broker.2 >>= λ coordinator.
          create_storage o coordinator.2 >>= λ storage. pure (record {
            broker_stateful_set = broker.0;
            coordinator_stateful_set = coordinator.0;
            storage_stateful_set = storage.0;
            broker_service = broker.1;
            coordinator_service = coordinator.1;
            storage_service = storage.1;
            cr = storage.2;
          }))

  unfoldable pub broker_and_coordinator_ready : UmResource → Io E Bool
  broker_and_coordinator_ready r =
      broker_ready o r.broker_stateful_set r.broker_service >>= λ ready.
      if not ready
      then pure false
      else (coordinator_ready o r.coordinator_stateful_set r.coordinator_service >>= λ coord_ready.
          if not coord_ready then pure false else pure true)

  -- The storage part of `triggerRollingUpdate`; the StatefulSet is the one that scaling left.
  unfoldable pub update_storage_part : UmResource → StatefulSet → Undermoon → Io E (Unit {0})
  unfolding need
  update_storage_part r storage cr =
      lift (need (storage_stateful_set_changed config.quantity_equal cr storage)) >>= λ changed.
      if changed
      then (trigger_storage_rolling_update o cr storage r.storage_service
          >> raise retry_reconciliation)
      else (storage_all_ready_and_stable o r.storage_service storage cr >>= λ ready.
          if not ready then raise retry_reconciliation else pure tt)

  unfoldable pub update_coordinator_part : UmResource → StatefulSet → Undermoon → Io E (Unit {0})
  unfolding update_storage_part
  update_coordinator_part r storage cr =
      lift (
        need (coordinator_stateful_set_changed config.quantity_equal cr r.coordinator_stateful_set))
      >>= λ changed.
          if changed
          then (trigger_coordinator_rolling_update o cr r.coordinator_stateful_set
                r.coordinator_service
              >> raise retry_reconciliation)
          else (coordinator_all_ready o r.coordinator_stateful_set r.coordinator_service
              >>= λ ready.
                  if not ready
                  then raise retry_reconciliation
                  else update_storage_part r storage cr)

  unfoldable pub trigger_rolling_update : UmResource → StatefulSet → Undermoon → Io E (Unit {0})
  unfolding update_coordinator_part
  trigger_rolling_update r storage cr =
      lift (need (broker_stateful_set_changed config.quantity_equal cr r.broker_stateful_set))
      >>= λ changed.
          if changed
          then (trigger_broker_rolling_update o config.operator_namespace cr r.broker_stateful_set
                r.broker_service
              >> raise retry_reconciliation)
          else (broker_all_ready o r.broker_stateful_set r.broker_service >>= λ ready.
              if not ready
              then raise retry_reconciliation
              else update_coordinator_part r storage cr)

  -- `if err != nil { ... }` of `Reconcile`, and the answer to an error that is never a retry there.
  unfoldable pub or_retry : {A : Type 0} → ℕ → Io E A → (A → Io E Outcome) → Io E Outcome
  or_retry seconds m f = handle m f (λ e. pure (retry_after seconds e))

  unfoldable pub or_fail : {A : Type 0} → Io E A → (A → Io E Outcome) → Io E Outcome
  or_fail m f = handle m f (λ e. pure (failed e))

  -- From the second `reconcileMeta` on.
  unfoldable pub finish_scaling : UmResource → Undermoon → Bytes → List Bytes → Bool → Io E Outcome
  unfolding or_retry
  finish_scaling r cr master replicas all_ready =
      or_retry 3 (reconcile_meta o master replicas [] cr all_ready) λ info.
        or_retry 10 (scale_down_storage_stateful_set o cr r.storage_stateful_set info)
          λ scaled. or_retry 5 (trigger_rolling_update r scaled.1 scaled.0) λ _. pure done

  -- From the test for stable storage on.
  unfoldable pub scale_when_stable :
      UmResource → Undermoon → Bytes → List Bytes → Bool → ClusterInfo → Io E Outcome
  unfolding or_retry or_fail finish_scaling
  scale_when_stable r cr master replicas all_ready info =
      or_fail (storage_all_ready_and_stable o r.storage_service r.storage_stateful_set cr) λ stable.
        if not stable
        then pure (requeue 10)
        else or_retry 3 (change_meta o master cr info)
            λ _. finish_scaling r cr master replicas all_ready

  -- From `reconcileMaster` on.
  unfoldable pub reconcile_cluster : UmResource → Io E Outcome
  unfolding or_retry or_fail scale_when_stable
  reconcile_cluster r = or_retry 3 (reconcile_master o r.cr r.broker_service) λ m.
      or_fail (config_set_broker o m.2 r.coordinator_service m.0) λ _.
        or_fail (get_server_proxies o r.storage_service m.2) λ proxies.
          or_fail (storage_all_ready o r.storage_service m.2) λ all_ready.
            or_retry 3 (reconcile_meta o m.0 m.1 proxies m.2 all_ready)
              λ info. scale_when_stable r m.2 m.0 m.1 all_ready info

  unfoldable pub reconcile_instance : Undermoon → Io E Outcome
  unfolding create_resources broker_and_coordinator_ready reconcile_cluster
  reconcile_instance cr = or_retry 3 (create_resources cr) λ r.
      or_fail (broker_and_coordinator_ready r)
        λ ready. if not ready then pure (requeue 3) else reconcile_cluster r

  unfoldable pub reconcile : Bytes → Bytes → Io E Outcome
  unfolding reconcile_instance
  reconcile namespace name =
      handle (ask (o.get_undermoon namespace name)) reconcile_instance
        (λ e. if is_not_found e then pure done else pure (failed e))
