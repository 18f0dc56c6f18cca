-- ===== src/Controllers/Resources.antt =====
-- The creation of the operator's objects: the `getOrCreate...` methods of the controllers, under the
-- guards of controllers/utils.go.
pub mod Sends
use undermoon_operator.Prelude.{
  ℕ, zero, suc, Option, none, some, List, [], ◌∷◌, ◌++◌, Bytes, codes, Bool, true, false,
  if◌then◌else◌,
}
use undermoon_operator.Controllers.Types.{Undermoon, StatefulSet, Service, ConfigMap, Secret}
use undermoon_operator.Controllers.Io.{
  Io, Outside, Result, ok, err, Error, KubeError, not_found, already_exists, conflict, other_kube,
  kube, pure, raise, handle, ask, request, lift, ◌>>=◌, ◌>>◌, created_stateful_set, created_service,
  created_config_map, created_secret,
}
use undermoon_operator.Controllers.Broker.{
  create_broker_service, create_broker_public_service, create_broker_stateful_set, object_labels,
  meta_config_map_name, meta_secret_name,
}
use undermoon_operator.Controllers.Coordinator.{
  create_coordinator_service, create_coordinator_stateful_set,
}
use undermoon_operator.Controllers.Storage.{
  create_storage_service, create_storage_public_service, create_storage_stateful_set,
}

unfoldable pub is_already_exists : Error → Bool
is_already_exists (kube already_exists) = true
is_already_exists _ = false

unfoldable pub is_not_found : Error → Bool
is_not_found (kube not_found) = true
is_not_found _ = false

unfoldable pub is_conflict : Error → Bool
is_conflict (kube conflict) = true
is_conflict _ = false

-- The guards of utils.go: at most `n` tries, as long as the object is found to exist already. A
-- try also returns the custom resource as it leaves it, failed or not.
module _ {E S A : Type 0} where
  unfoldable pub create_guard : ℕ → (S → Io E (Result A × S)) → Error → S → Io E (A × S)
  unfolding is_already_exists
  create_guard zero try last s = raise last
  create_guard (suc n) try last s = try s >>= λ t. elim t.0 [
    | ok a ↦ pure (a, t.1)
    | err e ↦ if is_already_exists e then create_guard n try e t.1 else raise e
  ]

-- The shape of `getOrCreate...`: own the object, look it up, and create it if it is not there.
module _ {E A : Type 0} where
  unfoldable pub get_or_create : Io E (Unit {0}) → Io E A → Io E A → Io E A
  unfolding is_not_found
  get_or_create own get create =
      own >> handle get pure (λ e. if is_not_found e then create else raise e)

  -- An action whose error is a value.
  unfoldable pub attempt : Io E A → Io E (Result A)
  attempt m = handle m (λ a. pure (ok a)) (λ e. pure (err e))

module _ {E : Type 0} (o : Outside E) where
  -- One try to get or create a StatefulSet; building it may change the custom resource.
  unfoldable pub stateful_set_try :
      (Undermoon → StatefulSet × Undermoon) → Undermoon → Io E (Result StatefulSet × Undermoon)
  unfolding get_or_create attempt
  stateful_set_try build cr =
      let (s, cr') = build cr in
      attempt (
        get_or_create (ask (o.set_controller_reference cr' s.name))
          (ask (o.get_stateful_set s.namespace s.name))
          (request (created_stateful_set s) (o.create_stateful_set s)))
      >>= λ r. pure (r, cr')

  unfoldable pub service_try : (Undermoon → Service) → Undermoon → Io E (Result Service × Undermoon)
  unfolding get_or_create attempt
  service_try build cr =
      let s : Service = build cr in
      attempt (
        get_or_create (ask (o.set_controller_reference cr s.name))
          (ask (o.get_service s.namespace s.name))
          (request (created_service s) (o.create_service s)))
      >>= λ r. pure (r, cr)

  -- The number of tries of the guards; the error that they start from is never returned.
  unfoldable pub ensure_stateful_set :
      (Undermoon → StatefulSet × Undermoon) → Undermoon → Io E (StatefulSet × Undermoon)
  unfolding create_guard stateful_set_try
  ensure_stateful_set build cr = create_guard 3 (stateful_set_try build) (kube already_exists) cr

  unfoldable pub ensure_service : (Undermoon → Service) → Undermoon → Io E (Service × Undermoon)
  unfolding create_guard service_try
  ensure_service build cr = create_guard 3 (service_try build) (kube already_exists) cr

  -- `createBroker`: the service, the public service, the StatefulSet.
  unfoldable pub create_broker : Bytes → Undermoon → Io E (StatefulSet × Service × Undermoon)
  unfolding ensure_service ensure_stateful_set
  create_broker operator_namespace cr = ensure_service create_broker_service cr >>= λ service.
      ensure_service create_broker_public_service service.1 >>= λ public.
      ensure_stateful_set (create_broker_stateful_set operator_namespace) public.1 >>= λ s.
      pure (s.0, service.0, s.1)

  unfoldable pub create_coordinator : Undermoon → Io E (StatefulSet × Service × Undermoon)
  unfolding ensure_service ensure_stateful_set
  create_coordinator cr = ensure_service create_coordinator_service cr >>= λ service.
      ensure_stateful_set create_coordinator_stateful_set service.1 >>= λ s.
      pure (s.0, service.0, s.1)

  -- `createMetaConfigMap` and `createMetaSecret` of controllers/meta.go.
  meta_config_map : Undermoon → Bytes → ConfigMap
  meta_config_map cr init_data = record {
    name = meta_config_map_name cr.name;
    namespace = cr.namespace;
    labels =
        (codes "undermoonName", cr.name)
        ∷ (codes "undermoonClusterName", cr.spec.cluster_name)
        ∷ [];
    resource_version = [];
    contents = (codes "broker_meta_store", init_data) ∷ [];
  }

  meta_secret : Undermoon → Bytes → Secret
  meta_secret cr password = record {
    name = meta_secret_name cr.name;
    namespace = cr.namespace;
    labels =
        (codes "undermoonName", cr.name)
        ∷ (codes "undermoonClusterName", cr.spec.cluster_name)
        ∷ [];
    contents = (codes "broker_meta_password", password) ∷ [];
  }

  -- `compress` stands for `compressString`, which is gzip and base64.
  config_map_try : (Bytes → Result Bytes) → Undermoon → Io E (Result ConfigMap × Undermoon)
  unfolding get_or_create attempt meta_config_map
  config_map_try compress cr =
      attempt (
        lift (compress (codes "{}")) >>= λ init_data.
        let c : ConfigMap = meta_config_map cr init_data in
        get_or_create (ask (o.set_controller_reference cr c.name))
          (ask (o.get_config_map c.namespace c.name))
          (request (created_config_map c) (o.create_config_map c)))
      >>= λ r. pure (r, cr)

  secret_try : Undermoon → Io E (Result Secret × Undermoon)
  unfolding get_or_create attempt meta_secret
  secret_try cr =
      attempt (
        ask o.password >>= λ password.
        let s : Secret = meta_secret cr password in
        get_or_create (ask (o.set_controller_reference cr s.name))
          (ask (o.get_secret s.namespace s.name)) (request (created_secret s) (o.create_secret s)))
      >>= λ r. pure (r, cr)

  unfoldable pub create_meta : (Bytes → Result Bytes) → Undermoon → Io E (Unit {0})
  unfolding create_guard config_map_try secret_try
  create_meta compress cr =
      create_guard 3 (config_map_try compress) (kube already_exists) cr
      >> (create_guard 3 secret_try (kube already_exists) cr >> pure tt)
