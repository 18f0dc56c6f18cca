-- ===== src/Controllers/Unchanged.antt =====
-- controllers/storage.go, broker.go and coordinator.go: the change detection on a StatefulSet that
-- was built from the custom resource as it is.
use undermoon_operator.Prelude.{
  ℕ, some, List, ◌∷◌, ◌++◌, Bytes, codes, bytes_eq, bytes_eq_self, dec, Bool, true, false, ◌≡◌, ◌≢◌,
  ap, ◌∙◌, refl, arith,
}
use undermoon_operator.Controllers.Types.{
  Opaque, Undermoon, EnvVar, StatefulSet, ResourceRequirements,
}
use undermoon_operator.Controllers.Utils.{
  get_env_value, pod_name_env, pod_ip_env, resource_requirements_equal, env_var_list_need_update,
}
use undermoon_operator.Controllers.Utils.Laws.{
  IsConsistent, IsMap, need_update-built, need_update_conflict, resource_requirements_equal_self,
}
use undermoon_operator.Controllers.Broker.{
  create_broker_stateful_set, broker_stateful_set_changed, broker_base_env,
}
use undermoon_operator.Controllers.Coordinator.{
  create_coordinator_stateful_set, coordinator_stateful_set_changed, coordinator_base_env,
}
use undermoon_operator.Controllers.Storage.{
  create_storage_stateful_set, storage_stateful_set_changed, proxy_base_env, redis_base_env,
  format_bool,
}

max_memory_env :
    (n : ℕ) (user : List EnvVar)
    → get_env_value (redis_base_env n ++ user) (codes "REDIS_MAX_MEMORY") ≡ dec n
unfolding redis_base_env get_env_value bytes_eq pod_ip_env
max_memory_env n user = refl

active_redirection_env :
    (cr : Undermoon) (user : List EnvVar)
    → get_env_value (proxy_base_env cr ++ user) (codes "UNDERMOON_ACTIVE_REDIRECTION")
      ≡ format_bool cr.spec.active_redirection
unfolding proxy_base_env get_env_value bytes_eq pod_name_env
active_redirection_env cr user = refl

thread_number_env :
    (cr : Undermoon) (user : List EnvVar)
    → get_env_value (proxy_base_env cr ++ user) (codes "UNDERMOON_THREAD_NUMBER")
      ≡ dec cr.spec.proxy_threads
unfolding proxy_base_env get_env_value bytes_eq pod_name_env
thread_number_env cr user = refl

abbrev pub AreMaps : ResourceRequirements → Type 0
AreMaps r = IsMap r.limits × IsMap r.requests

module _ (quantity_equal : Opaque → Opaque → Bool)
    (reflexive : (q : Opaque) → quantity_equal q q ≡ true) (cr : Undermoon) where
  requirements_self :
      (r : ResourceRequirements) → AreMaps r → resource_requirements_equal quantity_equal r r ≡ true
  requirements_self r m = resource_requirements_equal_self quantity_equal reflexive r m.0 m.1

  -- Of the StatefulSet that `createStorageStatefulSet` makes of a custom resource,
  -- `storageStatefulSetChanged` answers no: if no two of the variables for the proxy, or for Redis, have one name and differ, if no
  -- resource list names a resource twice, and if the comparison of quantities is reflexive.
  pub storage_stateful_set_changed-create :
      IsConsistent cr.spec.proxy_env_var
      → IsConsistent cr.spec.redis_env_var
      → AreMaps cr.spec.proxy_resources
      → AreMaps cr.spec.redis_resources
      → storage_stateful_set_changed quantity_equal cr (create_storage_stateful_set cr).0
        ≡ some false
  unfolding storage_stateful_set_changed create_storage_stateful_set
  storage_stateful_set_changed-create hp hr mp mr = ground (
    arith,
    bytes_eq_self cr.spec.undermoon_image,
    bytes_eq_self cr.spec.undermoon_image_pull_policy,
    bytes_eq_self cr.spec.redis_image,
    bytes_eq_self (dec cr.spec.max_memory),
    bytes_eq_self (dec cr.spec.proxy_threads),
    bytes_eq_self (format_bool cr.spec.active_redirection),
    requirements_self cr.spec.proxy_resources mp,
    requirements_self cr.spec.redis_resources mr,
    max_memory_env cr.spec.max_memory cr.spec.redis_env_var,
    active_redirection_env cr cr.spec.proxy_env_var,
    thread_number_env cr cr.spec.proxy_env_var,
    need_update-built (proxy_base_env cr) cr.spec.proxy_env_var hp,
    need_update-built (redis_base_env cr.spec.max_memory) cr.spec.redis_env_var hr,
  )

  -- Of the StatefulSet that `createBrokerStatefulSet` makes of a custom resource,
  -- `brokerStatefulSetChanged` answers no, if no two of the variables for the brokers have one name
  -- and differ, no resource list names a resource twice, and the comparison of quantities is
  -- reflexive.
  pub broker_stateful_set_changed-create :
      (operator_namespace : Bytes)
      → IsConsistent cr.spec.broker_env_var
      → AreMaps cr.spec.broker_resources
      → broker_stateful_set_changed quantity_equal cr
          (create_broker_stateful_set operator_namespace cr).0
        ≡ some false
  unfolding broker_stateful_set_changed create_broker_stateful_set
  broker_stateful_set_changed-create operator_namespace h m = ground (
    arith,
    bytes_eq_self cr.spec.undermoon_image,
    bytes_eq_self cr.spec.undermoon_image_pull_policy,
    requirements_self cr.spec.broker_resources m,
    need_update-built (broker_base_env operator_namespace cr) cr.spec.broker_env_var h,
  )

  -- Of the StatefulSet that `createCoordinatorStatefulSet` makes of a custom resource,
  -- `coordinatorStatefulSetChanged` answers no, if no two of the variables for the coordinators have
  -- one name and differ, no resource list names a resource twice, and the comparison of quantities
  -- is reflexive.
  pub coordinator_stateful_set_changed-create :
      IsConsistent cr.spec.coordinator_env_var
      → AreMaps cr.spec.coordinator_resources
      → coordinator_stateful_set_changed quantity_equal cr (create_coordinator_stateful_set cr).0
        ≡ some false
  unfolding coordinator_stateful_set_changed create_coordinator_stateful_set
  coordinator_stateful_set_changed-create h m = ground (
    arith,
    bytes_eq_self cr.spec.undermoon_image,
    bytes_eq_self cr.spec.undermoon_image_pull_policy,
    requirements_self cr.spec.coordinator_resources m,
    need_update-built (coordinator_base_env cr) cr.spec.coordinator_env_var h,
  )

  -- `storageStatefulSetChanged` does not look at the number of replicas: scaling never asks for a
  -- rolling update, whatever StatefulSet is deployed.
  pub storage_stateful_set_changed-replicas :
      (curr : StatefulSet) (n : ℕ)
      → storage_stateful_set_changed quantity_equal cr
          (record curr { spec = record curr.spec { replicas = n } })
        ≡ storage_stateful_set_changed quantity_equal cr curr
  unfolding storage_stateful_set_changed
  storage_stateful_set_changed-replicas curr n = refl

  -- If two neighbours among the variables for the proxy have one name and differ, then
  -- `storageStatefulSetChanged` answers yes even of the StatefulSet that `createStorageStatefulSet`
  -- has just made: the rolling update is asked for again and again.
  pub storage_update_never_ends :
      (new rest : List EnvVar) (v w : EnvVar)
      → cr.spec.proxy_env_var ≡ new ++ v ∷ (w ∷ rest)
      → v.name ≡ w.name
      → v ≢ w
      → storage_stateful_set_changed quantity_equal cr (create_storage_stateful_set cr).0
        ≡ some true
  unfolding storage_stateful_set_changed create_storage_stateful_set
  storage_update_never_ends new rest v w e same ne =
      let old : List EnvVar = proxy_base_env cr ++ cr.spec.proxy_env_var in
      let needed : env_var_list_need_update old cr.spec.proxy_env_var ≡ true =
        ap (env_var_list_need_update old) e ∙ need_update_conflict old new rest v w same ne in
      ground (arith, needed)
