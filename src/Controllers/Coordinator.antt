-- ===== src/Controllers/Coordinator.antt =====
-- The manifests of the coordinators, controllers/coordinator.go.
use undermoon_operator.Prelude.{
  ℕ, Option, none, some, List, [], ◌∷◌, ◌++◌, Bytes, codes, bytes_eq, dec, Bool, true, false, not,
  if◌then◌else◌,
}
use undermoon_operator.Controllers.Types.{
  Opaque, Labels, Undermoon, EnvVar, StatefulSet, Service, Container, lit, Affinity,
}
use undermoon_operator.Controllers.Utils.{
  from_field, text_var, add_anti_affinity, resource_requirements_equal, env_var_list_need_update,
}
use undermoon_operator.Controllers.Broker.{object_labels}

abbrev pub coordinator_port : ℕ
coordinator_port = 6699

abbrev pub coordinator_num : ℕ
coordinator_num = 2

unfoldable pub coordinator_service_name : Bytes → Bytes
coordinator_service_name name = name ++ codes "-cd-svc"

unfoldable pub coordinator_stateful_set_name : Bytes → Bytes
coordinator_stateful_set_name name = name ++ codes "-cd-ss"

unfoldable pub create_coordinator_service : Undermoon → Service
create_coordinator_service cr = record {
  name = coordinator_service_name cr.name;
  namespace = cr.namespace;
  labels = object_labels (codes "coordinator") cr;
  port_name = codes "coordinator-port";
  port = coordinator_port;
  cluster_ip = codes "None";
  selector = object_labels (codes "coordinator") cr;
  publish_not_ready_addresses = false;
}

unfoldable pub coordinator_base_env : Undermoon → List EnvVar
coordinator_base_env cr =
    text_var (codes "RUST_LOG") (codes "undermoon=info,coordinator=info")
    ∷ text_var (codes "UNDERMOON_ADDRESS") (codes "0.0.0.0:" ++ dec coordinator_port)
    ∷ text_var (codes "UNDERMOON_BROKER_ADDRESS") []
    ∷ record {
      name = codes "UNDERMOON_REPORTER_ID";
      value = [];
      value_from = some (from_field (codes "metadata.name"));
    }
    ∷ text_var (codes "UNDERMOON_THREAD_NUMBER") (codes "2")
    ∷ text_var (codes "UNDERMOON_PROXY_TIMEOUT") (codes "3")
    ∷ text_var (codes "UNDERMOON_ENABLE_COMPRESSION") (codes "1")
    ∷ text_var (codes "UNDERMOON_DISABLE_FAILOVER")
        (if cr.spec.disable_failover then codes "1" else codes "0")
    ∷ []

unfoldable pub coordinator_container : Undermoon → Container
coordinator_container cr = record {
  name = codes "coordinator";
  image = cr.spec.undermoon_image;
  image_pull_policy = cr.spec.undermoon_image_pull_policy;
  command = lit (codes "coordinator") ∷ [];
  args = [];
  env = coordinator_base_env cr ++ cr.spec.coordinator_env_var;
  resources = cr.spec.coordinator_resources;
  pre_stop = none;
  readiness_probe = none;
  working_dir = [];
  volume_mounts = 0;
  volume_devices = 0;
}

-- The key is the brokers', as `coordinatorTopologyKey` has it.
coordinator_affinity : Undermoon → Affinity × Option Affinity
coordinator_affinity cr =
    add_anti_affinity cr.spec.affinity (object_labels (codes "coordinator") cr) cr.namespace
      (codes "undermoon-broker-topology-key")

-- The manifest, and the custom resource with its affinity as the call leaves it.
unfoldable pub create_coordinator_stateful_set : Undermoon → StatefulSet × Undermoon
unfolding coordinator_affinity coordinator_container
create_coordinator_stateful_set cr =
    let (affinity, cr_affinity) = coordinator_affinity cr in
    let labels : Labels = object_labels (codes "coordinator") cr in
    (
      record {
        name = coordinator_stateful_set_name cr.name;
        namespace = cr.namespace;
        labels = labels;
        resource_version = [];
        spec = record {
          selector = labels;
          service_name = coordinator_service_name cr.name;
          replicas = coordinator_num;
          template_labels = labels;
          template = record {
            termination_grace_period = none;
            containers = coordinator_container cr ∷ [];
            affinity = affinity;
            node_selector = cr.spec.node_selector;
            image_pull_secrets = cr.spec.image_pull_secrets;
            scheduler_name = cr.spec.scheduler_name;
            tolerations = cr.spec.tolerations;
            volumes = 0;
          };
          pod_management_policy = codes "Parallel";
          volume_claim_templates = 0;
        };
        status = record { ready_replicas = 0; current_replicas = 0; replicas = 0 };
      },
      record cr { spec = record cr.spec { affinity = cr_affinity } },
    )

module _ (quantity_equal : Opaque → Opaque → Bool) where
  -- `none` is the panic of `Containers[0]`.
  coordinator_containers_changed : Undermoon → List Container → Option Bool
  coordinator_containers_changed cr [] = none
  coordinator_containers_changed cr (c ∷ _) = some (
      if not (bytes_eq cr.spec.undermoon_image c.image)
      then true
      else if not (bytes_eq cr.spec.undermoon_image_pull_policy c.image_pull_policy)
      then true
      else if not
          (resource_requirements_equal quantity_equal cr.spec.coordinator_resources c.resources)
      then true
      else if env_var_list_need_update c.env cr.spec.coordinator_env_var
      then true
      else false)

  unfoldable pub coordinator_stateful_set_changed : Undermoon → StatefulSet → Option Bool
  unfolding coordinator_containers_changed
  coordinator_stateful_set_changed cr curr =
      coordinator_containers_changed cr curr.spec.template.containers

unfoldable pub gen_coordinator_fqdn : Bytes → Bytes → Bytes → Bytes
gen_coordinator_fqdn pod_name name namespace =
    pod_name
    ++ codes "."
    ++ coordinator_service_name name
    ++ codes "."
    ++ namespace
    ++ codes ".svc.cluster.local"

unfoldable pub gen_coordinator_address_from_name : Bytes → Undermoon → Bytes
gen_coordinator_address_from_name pod_name cr =
    gen_coordinator_fqdn pod_name cr.name cr.namespace ++ (codes ":" ++ dec coordinator_port)
