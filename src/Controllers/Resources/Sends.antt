-- ===== src/Controllers/Resources/Sends.antt =====
-- The creation of the operator's objects: what the guarded creations send.
use undermoon_operator.Prelude.{ℕ, zero, suc, Bytes, if◌then◌else◌}
use undermoon_operator.Controllers.Types.{Undermoon, StatefulSet, Service, ConfigMap, Secret}
use undermoon_operator.Controllers.Io.{
  Io, Outside, Result, ok, err, Error, Event, pure, raise, handle, request, created_stateful_set,
  created_service, created_config_map, created_secret,
}
use undermoon_operator.Controllers.Io.Keeps.{
  Sends, Sends-request, Sends-bind, Sends-then, Sends-handle, Sends-if, Sends-pure, Sends-raise,
  sends_rules,
}
use undermoon_operator.Controllers.Resources.{
  is_already_exists, is_not_found, create_guard, get_or_create, attempt, stateful_set_try,
  service_try, ensure_stateful_set, ensure_service, create_broker, create_coordinator,
  config_map_try, secret_try, create_meta,
}

module _ {E S A : Type 0} {P : Event → Type 0} where
  create_guard-Sends :
      (n : ℕ) (try : S → Io E (Result A × S)) (last : Error) (s : S)
      → ((s : S) → Sends P (try s))
      → Sends P (create_guard n try last s)
  unfolding create_guard
  create_guard-Sends zero try last s h = Sends-raise {P = P} last
  create_guard-Sends (suc n) try last s h =
      Sends-bind (try s)
        (λ t. elim t.0 [
          | ok a ↦ pure (a, t.1)
          | err e ↦ if is_already_exists e then create_guard n try e t.1 else raise e
        ])
        (h s) (λ t. next (λ e s'. create_guard-Sends n try e s' h) t.0 t.1)
    where
      next :
          ((e : Error) (s' : S) → Sends P (create_guard n try e s'))
          → (r : Result A) (s' : S)
          → Sends {E = E} {A = A × S} P (elim r [
            | ok a ↦ pure (a, s')
            | err e ↦ if is_already_exists e then create_guard n try e s' else raise e
          ])
      next again (ok a) s' = Sends-pure {P = P} (a, s')
      next again (err e) s' =
          Sends-if (is_already_exists e) (create_guard n try e s') (raise e) (λ _. again e s')
            (λ _. Sends-raise {P = P} e)

module _ {E A : Type 0} {P : Event → Type 0} where
  attempt-Sends : (m : Io E A) → Sends P m → Sends P (attempt m)
  unfolding attempt
  attempt-Sends m h =
      Sends-handle m (λ a. pure (ok a)) (λ e. pure (err e)) h (λ a. Sends-pure {P = P} (ok a))
        (λ e. Sends-pure {P = P} (err e))

  get_or_create-Sends :
      (own : Io E (Unit {0})) (get create : Io E A)
      → Sends P own
      → Sends P get
      → Sends P create
      → Sends P (get_or_create own get create)
  unfolding get_or_create
  get_or_create-Sends own get create ho hg hc =
      Sends-then own (handle get pure (λ e. if is_not_found e then create else raise e)) ho (
        Sends-handle get pure (λ e. if is_not_found e then create else raise e) hg
          (λ a. Sends-pure {P = P} a)
          (λ e. Sends-if (is_not_found e) create (raise e) (λ _. hc) (λ _. Sends-raise {P = P} e)))

-- Only creations are sent.
module _ {E : Type 0} (o : Outside E) {P : Event → Type 0}
    (stateful_set : (s : StatefulSet) → P (created_stateful_set s))
    (service : (s : Service) → P (created_service s))
    (config_map : (c : ConfigMap) → P (created_config_map c))
    (secret : (s : Secret) → P (created_secret s)) where
  stateful_set-Sends :
      (s : StatefulSet) (f : E → Result StatefulSet × E)
      → Sends P (request (created_stateful_set s) f)
  stateful_set-Sends s f = Sends-request {P = P} (created_stateful_set s) f (stateful_set s)

  service-Sends :
      (s : Service) (f : E → Result Service × E) → Sends P (request (created_service s) f)
  service-Sends s f = Sends-request {P = P} (created_service s) f (service s)

  config_map-Sends :
      (c : ConfigMap) (f : E → Result ConfigMap × E) → Sends P (request (created_config_map c) f)
  config_map-Sends c f = Sends-request {P = P} (created_config_map c) f (config_map c)

  secret-Sends : (s : Secret) (f : E → Result Secret × E) → Sends P (request (created_secret s) f)
  secret-Sends s f = Sends-request {P = P} (created_secret s) f (secret s)

  stateful_set_try-Sends :
      (build : Undermoon → StatefulSet × Undermoon) (cr : Undermoon)
      → Sends P (stateful_set_try o build cr)
  unfolding stateful_set_try
  stateful_set_try-Sends build cr =
      search (sends_rules, attempt-Sends, get_or_create-Sends, stateful_set-Sends)

  service_try-Sends :
      (build : Undermoon → Service) (cr : Undermoon) → Sends P (service_try o build cr)
  unfolding service_try
  service_try-Sends build cr =
      search (sends_rules, attempt-Sends, get_or_create-Sends, service-Sends)

  pub ensure_stateful_set-Sends :
      (build : Undermoon → StatefulSet × Undermoon) (cr : Undermoon)
      → Sends P (ensure_stateful_set o build cr)
  unfolding ensure_stateful_set
  ensure_stateful_set-Sends build cr = search (create_guard-Sends, stateful_set_try-Sends)

  pub ensure_service-Sends :
      (build : Undermoon → Service) (cr : Undermoon) → Sends P (ensure_service o build cr)
  unfolding ensure_service
  ensure_service-Sends build cr = search (create_guard-Sends, service_try-Sends)

  config_map_try-Sends :
      (compress : Bytes → Result Bytes) (cr : Undermoon) → Sends P (config_map_try o compress cr)
  unfolding config_map_try
  config_map_try-Sends compress cr =
      search (sends_rules, attempt-Sends, get_or_create-Sends, config_map-Sends)

  secret_try-Sends : (cr : Undermoon) → Sends P (secret_try o cr)
  unfolding secret_try
  secret_try-Sends cr = search (sends_rules, attempt-Sends, get_or_create-Sends, secret-Sends)

  pub create_meta-Sends :
      (compress : Bytes → Result Bytes) (cr : Undermoon) → Sends P (create_meta o compress cr)
  unfolding create_meta
  create_meta-Sends compress cr =
      search (sends_rules, create_guard-Sends, config_map_try-Sends, secret_try-Sends)

  pub create_broker-Sends :
      (operator_namespace : Bytes) (cr : Undermoon)
      → Sends P (create_broker o operator_namespace cr)
  unfolding create_broker
  create_broker-Sends operator_namespace cr =
      search (sends_rules, ensure_service-Sends, ensure_stateful_set-Sends)

  pub create_coordinator-Sends : (cr : Undermoon) → Sends P (create_coordinator o cr)
  unfolding create_coordinator
  create_coordinator-Sends cr =
      search (sends_rules, ensure_service-Sends, ensure_stateful_set-Sends)
