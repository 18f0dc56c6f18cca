-- ===== src/Controllers/BrokerController.antt =====
-- controllers/broker_controller.go and coordinator_controller.go: readiness, the master broker, and
-- telling the coordinators about it.
pub mod Master
pub mod Sends
use undermoon_operator.Prelude.{
  ℕ, Option, none, some, List, [], ◌∷◌, ◌++◌, Bytes, bytes_eq, Bool, true, false, not, ◌&&◌, ◌||◌,
  if◌then◌else◌, ltb, leb, ◌==◌, length, map,
}
use undermoon_operator.Controllers.Types.{Undermoon, StatefulSet, Service}
use undermoon_operator.Controllers.Io.{
  Io, Outside, Result, ok, err, Error, retry_reconciliation, failure, pure, raise, handle, ask,
  request, lift, ◌>>=◌, ◌>>◌, patched_status, configured,
}
use undermoon_operator.Controllers.Utils.{int32_lt}
use undermoon_operator.Controllers.Broker.{
  gen_broker_address_from_name, broker_num, create_broker_stateful_set,
}
use undermoon_operator.Controllers.Coordinator.{
  gen_coordinator_address_from_name, coordinator_num, create_coordinator_stateful_set,
}
use undermoon_operator.Controllers.BrokerClient as Client
use undermoon_operator.Controllers.StorageController.{get_endpoints, update_stateful_set_helper}

-- `addr == currMaster { continue }`
unfoldable pub without : Bytes → List Bytes → List Bytes
without master [] = []
without master (a ∷ addresses) =
    let rest = without master addresses in if bytes_eq a master then rest else a ∷ rest

unfoldable pub broker_addresses_of : Undermoon → List Bytes → List Bytes
broker_addresses_of cr [] = []
broker_addresses_of cr (h ∷ hosts) =
    gen_broker_address_from_name h cr ∷ broker_addresses_of cr hosts

module _ {E : Type 0} (o : Outside E) where
  -- `ReadyReplicas` is never negative.
  unfoldable pub broker_ready : StatefulSet → Service → Io E Bool
  broker_ready s svc =
      get_endpoints o svc >>= λ hosts. pure (leb 1 s.status.ready_replicas && leb 1 (length hosts))

  unfoldable pub broker_all_ready : StatefulSet → Service → Io E Bool
  broker_all_ready s svc = get_endpoints o svc >>= λ hosts.
      pure (s.status.ready_replicas == broker_num && leb broker_num (length hosts))

  unfoldable pub coordinator_ready : StatefulSet → Service → Io E Bool
  coordinator_ready s svc =
      get_endpoints o svc >>= λ hosts. pure (leb 1 s.status.ready_replicas && leb 1 (length hosts))

  unfoldable pub coordinator_all_ready : StatefulSet → Service → Io E Bool
  coordinator_all_ready s svc = get_endpoints o svc >>= λ hosts.
      pure (leb coordinator_num s.status.ready_replicas && leb coordinator_num (length hosts))

  -- The first loop of `getCurrentMaster`: the brokers that have replicas; `found` is `masterBrokers`.
  unfoldable pub find_masters : List Bytes → List Bytes → Io E (List Bytes)
  find_masters found [] = pure found
  find_masters found (a ∷ addresses) =
      handle (Client.get_replica_addresses o a)
        (λ replicas.
          find_masters (if length replicas == 0 then found else found ++ a ∷ []) addresses)
        (λ _. find_masters found addresses)

  -- The second loop: the broker of the highest epoch, the empty address if none has answered.
  unfoldable pub find_max_epoch : ℕ → Bytes → List Bytes → Io E Bytes
  find_max_epoch max_epoch best [] = pure best
  find_max_epoch max_epoch best (a ∷ addresses) =
      handle (Client.get_broker_epoch o a)
        (λ epoch.
          let better : Bool = bytes_eq best [] || ltb max_epoch epoch in
          find_max_epoch (if better then epoch else max_epoch) (if better then a else best)
            addresses)
        (λ _. find_max_epoch max_epoch best addresses)

  choose_master : List Bytes → List Bytes → Io E Bytes
  unfolding find_max_epoch
  choose_master addresses [] = find_max_epoch 0 [] addresses
  choose_master addresses (m ∷ []) = pure m
  choose_master addresses (m ∷ n ∷ masters) = find_max_epoch 0 [] (m ∷ n ∷ masters)

  unfoldable pub get_current_master : List Bytes → Io E Bytes
  unfolding find_masters choose_master
  get_current_master [] = raise failure
  get_current_master (a ∷ addresses) =
      find_masters [] (a ∷ addresses) >>= λ masters. choose_master (a ∷ addresses) masters

  -- The status patch leaves the server's custom resource in the caller's.
  unfoldable pub set_master_broker_status : Undermoon → Bytes → Io E Undermoon
  set_master_broker_status cr master = request (patched_status master) (o.patch_status cr master)

  unfoldable pub reconcile_master : Undermoon → Service → Io E (Bytes × List Bytes × Undermoon)
  unfolding get_current_master set_master_broker_status without broker_addresses_of
  reconcile_master cr svc = get_endpoints o svc >>= λ hosts.
      let addresses : List Bytes = broker_addresses_of cr hosts in
      get_current_master addresses >>= λ master.
      set_master_broker_status cr master >>= λ cr'. pure (master, without master addresses, cr')

  -- The loop of `configSetBroker`: `err` is what the last round left in it.
  unfoldable pub config_loop : Undermoon → Bytes → Option Error → List Bytes → Io E (Option Error)
  config_loop cr master last [] = pure last
  config_loop cr master last (h ∷ hosts) =
      let address : Bytes = gen_coordinator_address_from_name h cr in
      handle (request (configured address master) (o.set_brokers address master))
        (λ _. config_loop cr master none hosts) (λ e. config_loop cr master (some e) hosts)

  config_result : Option Error → Io E (Unit {0})
  config_result none = pure tt
  config_result (some e) = raise e

  unfoldable pub config_set_broker : Undermoon → Service → Bytes → Io E (Unit {0})
  unfolding config_loop config_result
  config_set_broker cr svc master =
      get_endpoints o svc >>= λ hosts. config_loop cr master none hosts >>= config_result

  unfoldable pub trigger_broker_rolling_update :
      Bytes → Undermoon → StatefulSet → Service → Io E (Unit {0})
  unfolding broker_all_ready
  trigger_broker_rolling_update operator_namespace cr s svc =
      update_stateful_set_helper o (create_broker_stateful_set operator_namespace) cr s
      >>= λ updated. broker_all_ready updated.0 svc >>= λ ready.
          if not ready then raise retry_reconciliation else pure tt

  unfoldable pub trigger_coordinator_rolling_update :
      Undermoon → StatefulSet → Service → Io E (Unit {0})
  unfolding coordinator_all_ready
  trigger_coordinator_rolling_update cr s svc =
      update_stateful_set_helper o create_coordinator_stateful_set cr s >>= λ updated.
      coordinator_all_ready updated.0 svc >>= λ ready.
      if not ready then raise retry_reconciliation else pure tt
