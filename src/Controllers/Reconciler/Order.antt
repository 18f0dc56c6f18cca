-- ===== src/Controllers/Reconciler/Order.antt =====
-- controllers/undermoon_controller.go: when `triggerRollingUpdate` is through.
use undermoon_operator.Prelude.{
  ◌≡◌, sym, ◌∙◌, ap, arith, Bool, false, not, Option, some, if◌then◌else◌,
}
use undermoon_operator.Controllers.Types.{Undermoon, StatefulSet, Service}
use undermoon_operator.Controllers.Io.{
  Io, Outside, World, ok, retry_reconciliation, pure, raise, lift, ◌>>=◌, ◌>>◌,
}
use undermoon_operator.Controllers.Broker.{broker_stateful_set_changed}
use undermoon_operator.Controllers.Coordinator.{coordinator_stateful_set_changed}
use undermoon_operator.Controllers.Storage.{storage_stateful_set_changed}
use undermoon_operator.Controllers.StorageController.{
  get_endpoints, storage_all_ready, storage_all_ready_and_stable, trigger_storage_rolling_update,
}
use undermoon_operator.Controllers.BrokerController.{
  broker_all_ready, coordinator_all_ready, trigger_broker_rolling_update,
  trigger_coordinator_rolling_update,
}
use undermoon_operator.Controllers.Reconciler.{
  Config, UmResource, need, update_storage_part, update_coordinator_part, trigger_rolling_update,
}

-- The shape of the three parts: an update that ends the run where there is a change, and the test
-- of readiness before the next part.
abbrev gate :
    {E : Type 0} → Option Bool → Io E (Unit {0}) → Io E Bool → Io E (Unit {0}) → Io E (Unit {0})
gate x update ready rest = lift (need x) >>= λ changed.
    if changed
    then (update >> raise retry_reconciliation)
    else (ready >>= λ r. if not r then raise retry_reconciliation else rest)

module _ {E : Type 0} (update : Io E (Unit {0})) (ready : Io E Bool) (rest : Io E (Unit {0})) where
  gate-unchanged :
      (x : Option Bool) (w : World E) → (gate x update ready rest w).0 ≡ ok tt → x ≡ some false
  unfolding need ◌>>=◌ ◌>>◌
  gate-unchanged x w h = ground (arith, h)

  gate-rest :
      (x : Option Bool) (w : World E)
      → (gate x update ready rest w).0 ≡ ok tt
      → gate x update ready rest w ≡ rest (ready w).1
  unfolding need ◌>>=◌ ◌>>◌
  gate-rest x w h = ground (arith, h)

module _ {E : Type 0} (o : Outside E) where
  broker_all_ready_quiet :
      (s : StatefulSet) (svc : Service) (w : World E) → (broker_all_ready o s svc w).1.log ≡ w.log
  unfolding broker_all_ready get_endpoints ◌>>=◌
  broker_all_ready_quiet s svc w = ground arith

  coordinator_all_ready_quiet :
      (s : StatefulSet) (svc : Service) (w : World E)
      → (coordinator_all_ready o s svc w).1.log ≡ w.log
  unfolding coordinator_all_ready get_endpoints ◌>>=◌
  coordinator_all_ready_quiet s svc w = ground arith

  storage_stable_quiet :
      (svc : Service) (s : StatefulSet) (cr : Undermoon) (w : World E)
      → (storage_all_ready_and_stable o svc s cr w).1.log ≡ w.log
  unfolding storage_all_ready_and_stable storage_all_ready get_endpoints ◌>>=◌
  storage_stable_quiet svc s cr w = ground arith

  module _ (config : Config) (r : UmResource) (storage : StatefulSet) (cr : Undermoon) where
    update_storage_part-settled :
        (w : World E)
        → (update_storage_part o config r storage cr w).0 ≡ ok tt
        → (storage_stateful_set_changed config.quantity_equal cr storage ≡ some false)
          × ((update_storage_part o config r storage cr w).1.log ≡ w.log)
    unfolding update_storage_part storage_all_ready_and_stable ◌>>=◌
    update_storage_part-settled w h =
        let x : Option Bool = storage_stateful_set_changed config.quantity_equal cr storage in
        let update : Io E (Unit {0}) =
          trigger_storage_rolling_update o cr storage r.storage_service in
        let ready : Io E Bool = storage_all_ready_and_stable o r.storage_service storage cr in
        (
          gate-unchanged update ready (pure tt) x w h,
          ap (λ p. p.1.log) (gate-rest update ready (pure tt) x w h)
              ∙ storage_stable_quiet r.storage_service storage cr w,
        )

    update_coordinator_part-settled :
        (w : World E)
        → (update_coordinator_part o config r storage cr w).0 ≡ ok tt
        → (coordinator_stateful_set_changed config.quantity_equal cr r.coordinator_stateful_set
            ≡ some false)
          × (storage_stateful_set_changed config.quantity_equal cr storage ≡ some false)
          × ((update_coordinator_part o config r storage cr w).1.log ≡ w.log)
    unfolding update_coordinator_part
    update_coordinator_part-settled w h =
        let x : Option Bool =
          coordinator_stateful_set_changed config.quantity_equal cr r.coordinator_stateful_set in
        let update : Io E (Unit {0}) =
          trigger_coordinator_rolling_update o cr r.coordinator_stateful_set
            r.coordinator_service in
        let ready : Io E Bool =
          coordinator_all_ready o r.coordinator_stateful_set r.coordinator_service in
        let rest : Io E (Unit {0}) = update_storage_part o config r storage cr in
        let e = gate-rest update ready rest x w h in
        let deeper = update_storage_part-settled (ready w).1 (sym (ap (λ p. p.0) e) ∙ h) in
        (
          gate-unchanged update ready rest x w h,
          deeper.0,
          ap (λ p. p.1.log) e
              ∙ deeper.1
              ∙ coordinator_all_ready_quiet r.coordinator_stateful_set r.coordinator_service w,
        )

    -- If `triggerRollingUpdate` succeeds, then the change detections
    -- (`brokerStatefulSetChanged`, `coordinatorStatefulSetChanged`,
    -- `storageStatefulSetChanged`) answer no for the three StatefulSets that it was given, and no
    -- request that changes anything was sent.
    pub trigger_rolling_update-settled :
        (w : World E)
        → (trigger_rolling_update o config r storage cr w).0 ≡ ok tt
        → (broker_stateful_set_changed config.quantity_equal cr r.broker_stateful_set ≡ some false)
          × (coordinator_stateful_set_changed config.quantity_equal cr r.coordinator_stateful_set
              ≡ some false)
          × (storage_stateful_set_changed config.quantity_equal cr storage ≡ some false)
          × ((trigger_rolling_update o config r storage cr w).1.log ≡ w.log)
    unfolding trigger_rolling_update
    trigger_rolling_update-settled w h =
        let x : Option Bool =
          broker_stateful_set_changed config.quantity_equal cr r.broker_stateful_set in
        let update : Io E (Unit {0}) =
          trigger_broker_rolling_update o config.operator_namespace cr r.broker_stateful_set
            r.broker_service in
        let ready : Io E Bool = broker_all_ready o r.broker_stateful_set r.broker_service in
        let rest : Io E (Unit {0}) = update_coordinator_part o config r storage cr in
        let e = gate-rest update ready rest x w h in
        let deeper = update_coordinator_part-settled (ready w).1 (sym (ap (λ p. p.0) e) ∙ h) in
        (
          gate-unchanged update ready rest x w h,
          deeper.0,
          deeper.1,
          ap (λ p. p.1.log) e
              ∙ deeper.2
              ∙ broker_all_ready_quiet r.broker_stateful_set r.broker_service w,
        )
