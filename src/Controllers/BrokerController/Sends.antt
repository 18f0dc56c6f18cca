-- ===== src/Controllers/BrokerController/Sends.antt =====
-- controllers/broker_controller.go and coordinator_controller.go: what the steps send.
use undermoon_operator.Prelude.{
  ℕ, Bytes, bytes_eq, List, [], ◌∷◌, ◌++◌, Option, none, some, Bool, false, if◌then◌else◌, length,
  ltb, ◌==◌, ◌||◌, ◌≡◌,
}
use undermoon_operator.Controllers.Types.{Undermoon, StatefulSet, Service}
use undermoon_operator.Controllers.Io.{
  Outside, Error, failure, get_config, get_epoch, HttpRequest, Event, sent, configured,
  patched_status, updated_stateful_set, pure, raise, handle, request,
}
use undermoon_operator.Controllers.Io.Keeps.{
  Sends, Sends-request, Sends-handle, Sends-if, Sends-pure, Sends-raise, sends_rules,
}
use undermoon_operator.Controllers.Coordinator.{gen_coordinator_address_from_name}
use undermoon_operator.Controllers.BrokerClient as Client
use undermoon_operator.Controllers.BrokerClient.{replica_addresses_reply, epoch_reply}
use undermoon_operator.Controllers.BrokerClient.Requests.{call-Sends}
use undermoon_operator.Controllers.StorageController.{
  is_empty, conflict_to_retry, get_endpoints, update_stateful_set_helper,
}
use undermoon_operator.Controllers.BrokerController.{
  find_masters, find_max_epoch, choose_master, get_current_master, set_master_broker_status,
  reconcile_master, config_loop, config_result, config_set_broker, broker_all_ready,
  coordinator_all_ready, trigger_broker_rolling_update, trigger_coordinator_rolling_update,
}

module _ {E : Type 0} (o : Outside E) {P : Event → Type 0} where
  pub get_endpoints-Sends : (svc : Service) → Sends P (get_endpoints o svc)
  unfolding get_endpoints
  get_endpoints-Sends svc = search sends_rules

  pub broker_all_ready-Sends :
      (s : StatefulSet) (svc : Service) → Sends P (broker_all_ready o s svc)
  unfolding broker_all_ready
  broker_all_ready-Sends s svc = search (sends_rules, get_endpoints-Sends)

  pub coordinator_all_ready-Sends :
      (s : StatefulSet) (svc : Service) → Sends P (coordinator_all_ready o s svc)
  unfolding coordinator_all_ready
  coordinator_all_ready-Sends s svc = search (sends_rules, get_endpoints-Sends)

  module _ (http : (req : HttpRequest) → P (sent req)) where
    find_masters-Sends : (found addresses : List Bytes) → Sends P (find_masters o found addresses)
    unfolding find_masters Client.get_replica_addresses
    find_masters-Sends found [] = search sends_rules
    find_masters-Sends found (x ∷ xs) =
        Sends-handle (Client.get_replica_addresses o x)
          (λ rs. find_masters o (if length rs == 0 then found else found ++ x ∷ []) xs)
          (λ _. find_masters o found xs)
          (call-Sends o {P = P} (get_config x) replica_addresses_reply (http (get_config x)))
          (λ rs. find_masters-Sends (if length rs == 0 then found else found ++ x ∷ []) xs)
          (λ _. find_masters-Sends found xs)

    find_max_epoch-Sends :
        (n : ℕ) (best : Bytes) (addresses : List Bytes)
        → Sends P (find_max_epoch o n best addresses)
    unfolding find_max_epoch Client.get_broker_epoch
    find_max_epoch-Sends n best [] = search sends_rules
    find_max_epoch-Sends n best (x ∷ xs) =
        let better : ℕ → Bool = λ epoch. bytes_eq best [] || ltb n epoch in
        Sends-handle (Client.get_broker_epoch o x)
          (λ epoch.
            find_max_epoch o (if better epoch then epoch else n) (if better epoch then x else best)
              xs)
          (λ _. find_max_epoch o n best xs)
          (call-Sends o {P = P} (get_epoch x) epoch_reply (http (get_epoch x)))
          (λ epoch.
            find_max_epoch-Sends (if better epoch then epoch else n)
              (if better epoch then x else best) xs)
          (λ _. find_max_epoch-Sends n best xs)

    choose_master-Sends :
        (addresses masters : List Bytes) → Sends P (choose_master o addresses masters)
    unfolding choose_master
    choose_master-Sends addresses [] = search find_max_epoch-Sends
    choose_master-Sends addresses (m ∷ []) = search sends_rules
    choose_master-Sends addresses (m ∷ n ∷ ms) = search find_max_epoch-Sends

    get_current_master-Sends : (addresses : List Bytes) → Sends P (get_current_master o addresses)
    unfolding get_current_master
    get_current_master-Sends [] = search sends_rules
    get_current_master-Sends (x ∷ xs) =
        search (sends_rules, find_masters-Sends, choose_master-Sends)

    module _ (patched : (b : Bytes) → P (patched_status b)) where
      status_patch-Sends : (cr : Undermoon) (b : Bytes) → Sends P (set_master_broker_status o cr b)
      unfolding set_master_broker_status
      status_patch-Sends cr b =
          Sends-request {P = P} (patched_status b) (o.patch_status cr b) (patched b)

      pub reconcile_master-Sends :
          (cr : Undermoon) (svc : Service) → Sends P (reconcile_master o cr svc)
      unfolding reconcile_master
      reconcile_master-Sends cr svc =
          search (sends_rules, get_endpoints-Sends, get_current_master-Sends, status_patch-Sends)

  module _ (told : (a b : Bytes) → P (configured a b)) where
    config_loop-Sends :
        (cr : Undermoon) (master : Bytes) (last : Option Error) (hosts : List Bytes)
        → Sends P (config_loop o cr master last hosts)
    unfolding config_loop
    config_loop-Sends cr master last [] = search sends_rules
    config_loop-Sends cr master last (h ∷ hosts) =
        let a : Bytes = gen_coordinator_address_from_name h cr in
        Sends-handle (request (configured a master) (o.set_brokers a master))
          (λ _. config_loop o cr master none hosts) (λ e. config_loop o cr master (some e) hosts)
          (Sends-request {P = P} (configured a master) (o.set_brokers a master) (told a master))
          (λ _. config_loop-Sends cr master none hosts)
          (λ e. config_loop-Sends cr master (some e) hosts)

    config_result-Sends : (r : Option Error) → Sends P (config_result o r)
    unfolding config_result
    config_result-Sends none = search sends_rules
    config_result-Sends (some e) = search sends_rules

    pub config_set_broker-Sends :
        (cr : Undermoon) (svc : Service) (master : Bytes)
        → Sends P (config_set_broker o cr svc master)
    unfolding config_set_broker
    config_set_broker-Sends cr svc master =
        search (sends_rules, get_endpoints-Sends, config_loop-Sends, config_result-Sends)

  module _
      (updated : (s : StatefulSet)
        → is_empty s.resource_version ≡ false
        → P (updated_stateful_set s)) where
    -- The update helper sends no update without a resource version.
    pub update_stateful_set_helper-Sends :
        (build : Undermoon → StatefulSet × Undermoon) (cr : Undermoon) (s : StatefulSet)
        → Sends P (update_stateful_set_helper o build cr s)
    unfolding update_stateful_set_helper
    update_stateful_set_helper-Sends build cr s =
        let s' : StatefulSet = record s { spec = (build cr).0.spec } in
        Sends-if (is_empty s.resource_version) (raise failure)
          (handle (request (updated_stateful_set s') (o.update_stateful_set s'))
            (λ u. pure (u, (build cr).1)) (λ e. raise (conflict_to_retry e)))
          (λ _. Sends-raise {P = P} failure)
          (λ nonempty.
            Sends-handle (request (updated_stateful_set s') (o.update_stateful_set s'))
              (λ u. pure (u, (build cr).1)) (λ e. raise (conflict_to_retry e))
              (Sends-request {P = P} (updated_stateful_set s') (o.update_stateful_set s')
                (updated s' nonempty))
              (λ u. Sends-pure {P = P} (u, (build cr).1))
              (λ e. Sends-raise {P = P} (conflict_to_retry e)))

    pub trigger_broker-Sends :
        (operator_namespace : Bytes) (cr : Undermoon) (s : StatefulSet) (svc : Service)
        → Sends P (trigger_broker_rolling_update o operator_namespace cr s svc)
    unfolding trigger_broker_rolling_update
    trigger_broker-Sends operator_namespace cr s svc =
        search (sends_rules, update_stateful_set_helper-Sends, broker_all_ready-Sends)

    pub trigger_coordinator-Sends :
        (cr : Undermoon) (s : StatefulSet) (svc : Service)
        → Sends P (trigger_coordinator_rolling_update o cr s svc)
    unfolding trigger_coordinator_rolling_update
    trigger_coordinator-Sends cr s svc =
        search (sends_rules, update_stateful_set_helper-Sends, coordinator_all_ready-Sends)
