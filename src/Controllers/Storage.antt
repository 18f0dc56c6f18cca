-- ===== src/Controllers/Storage.antt =====
-- The manifests of the storage pods, controllers/storage.go: a server proxy and two Redis.
mod Names
mod Containers
unfoldable pub use Names.*
unfoldable pub use Containers.*
use undermoon_operator.Prelude.{
  ℕ, zero, suc, ◌+◌, ◌*◌, Option, none, some, List, [], ◌∷◌, ◌++◌, map, Bytes, codes, bytes_eq, dec,
  Bool, true, false, not, ◌||◌, if◌then◌else◌,
}
use undermoon_operator.Controllers.Types.{
  Opaque, Labels, Undermoon, EnvVar, StatefulSet, Service, Container, Probe, Word, lit, format,
  Affinity, server_proxy_run, server_proxy_pre_stop, redis_readiness, server_proxy_ready,
}
use undermoon_operator.Controllers.Utils.{
  text_var, pod_name_env, pod_ip_env, get_env_value, add_anti_affinity, resource_requirements_equal,
  env_var_list_need_update, to_int32, chunk_shard_number, gen_pre_stop_hook_life_cycle,
}
use undermoon_operator.Controllers.Broker.{object_labels, gen_broker_public_fqdn, broker_port}

storage_affinity : Undermoon → Affinity × Option Affinity
storage_affinity cr =
    add_anti_affinity cr.spec.affinity (object_labels (codes "storage") cr) cr.namespace
      (codes "undermoon-storage-topology-key")

-- The manifest, and the custom resource with its affinity as the call leaves it.
unfoldable pub create_storage_stateful_set : Undermoon → StatefulSet × Undermoon
unfolding storage_affinity server_proxy_container gen_redis_container
create_storage_stateful_set cr =
    let (affinity, cr_affinity) = storage_affinity cr in
    let labels : Labels = object_labels (codes "storage") cr in
    (
      record {
        name = storage_stateful_set_name cr.name;
        namespace = cr.namespace;
        labels = labels;
        resource_version = [];
        spec = record {
          selector = labels;
          service_name = storage_service_name cr.name;
          replicas = to_int32 (cr.spec.chunk_number * chunk_shard_number);
          template_labels = labels;
          template = record {
            termination_grace_period = some 30;
            containers =
                server_proxy_container cr
                ∷ gen_redis_container 1 cr.spec.redis_image cr.spec.max_memory 7001 cr
                ∷ gen_redis_container 2 cr.spec.redis_image cr.spec.max_memory 7002 cr
                ∷ [];
            affinity = affinity;
            node_selector = cr.spec.node_selector;
            image_pull_secrets = cr.spec.image_pull_secrets;
            scheduler_name = cr.spec.scheduler_name;
            tolerations = cr.spec.tolerations;
            volumes = cr.spec.storage_volumes;
          };
          pod_management_policy = codes "Parallel";
          volume_claim_templates = cr.spec.volume_claim_templates;
        };
        status = record { ready_replicas = 0; current_replicas = 0; replicas = 0 };
      },
      record cr { spec = record cr.spec { affinity = cr_affinity } },
    )

module _ (quantity_equal : Opaque → Opaque → Bool) where
  -- The comparisons of `storageStatefulSetChanged` on the three containers.
  unfoldable pub containers_changed : Undermoon → Container → Container → Container → Bool
  containers_changed cr proxy redis1 redis2 =
      if not (bytes_eq cr.spec.undermoon_image proxy.image)
      then true
      else if not (bytes_eq cr.spec.undermoon_image_pull_policy proxy.image_pull_policy)
      then true
      else if not (bytes_eq cr.spec.redis_image redis1.image)
          || not (bytes_eq cr.spec.redis_image redis2.image)
      then true
      else if not
          (resource_requirements_equal quantity_equal cr.spec.proxy_resources proxy.resources)
      then true
      else if not
            (resource_requirements_equal quantity_equal cr.spec.redis_resources redis1.resources)
          || not
              (resource_requirements_equal quantity_equal cr.spec.redis_resources redis2.resources)
      then true
      else if not (
            bytes_eq (dec cr.spec.max_memory) (get_env_value redis1.env (codes "REDIS_MAX_MEMORY")))
          || not (
              bytes_eq (dec cr.spec.max_memory)
                (get_env_value redis2.env (codes "REDIS_MAX_MEMORY")))
      then true
      else if not (
          bytes_eq (format_bool cr.spec.active_redirection)
            (get_env_value proxy.env (codes "UNDERMOON_ACTIVE_REDIRECTION")))
      then true
      else if not (
          bytes_eq (dec cr.spec.proxy_threads)
            (get_env_value proxy.env (codes "UNDERMOON_THREAD_NUMBER")))
      then true
      else if env_var_list_need_update proxy.env cr.spec.proxy_env_var
      then true
      else if env_var_list_need_update redis1.env cr.spec.redis_env_var
      then true
      else if env_var_list_need_update redis2.env cr.spec.redis_env_var
      then true
      else false

  -- `none` is the panic of `Containers[2]` and its kin.
  three_containers : Undermoon → List Container → Option Bool
  unfolding containers_changed
  three_containers cr (proxy ∷ redis1 ∷ redis2 ∷ _) =
      some (containers_changed cr proxy redis1 redis2)
  three_containers cr _ = none

  unfoldable pub storage_stateful_set_changed : Undermoon → StatefulSet → Option Bool
  unfolding three_containers
  storage_stateful_set_changed cr curr = three_containers cr curr.spec.template.containers
