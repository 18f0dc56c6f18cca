-- ===== src/Controllers/Broker.antt =====
-- The manifests of the brokers, controllers/broker.go.
use undermoon_operator.Prelude.{
  ℕ, Option, none, some, List, [], ◌∷◌, ◌++◌, Bytes, codes, bytes_eq, dec, Bool, true, false, not,
  if◌then◌else◌,
}
use undermoon_operator.Controllers.Types.{
  Opaque, Labels, Undermoon, EnvVar, StatefulSet, Service, Container, lit, Affinity,
}
use undermoon_operator.Controllers.Utils.{
  from_secret, text_var, add_anti_affinity, resource_requirements_equal, env_var_list_need_update,
}

abbrev pub broker_port : ℕ
broker_port = 7799

abbrev pub broker_num : ℕ
broker_num = 2

-- The labels of the objects of a service type.
unfoldable pub object_labels : Bytes → Undermoon → Labels
object_labels service_type cr =
    (codes "undermoonService", service_type)
    ∷ (codes "undermoonName", cr.name)
    ∷ (codes "undermoonClusterName", cr.spec.cluster_name)
    ∷ []

unfoldable pub broker_service_name : Bytes → Bytes
broker_service_name name = name ++ codes "-bk-svc"

unfoldable pub broker_public_service_name : Bytes → Bytes
broker_public_service_name name = name ++ codes "-broker"

unfoldable pub broker_stateful_set_name : Bytes → Bytes
broker_stateful_set_name name = name ++ codes "-bk-ss"

unfoldable pub create_broker_service : Undermoon → Service
create_broker_service cr = record {
  name = broker_service_name cr.name;
  namespace = cr.namespace;
  labels = object_labels (codes "broker") cr;
  port_name = codes "broker-port";
  port = broker_port;
  cluster_ip = codes "None";
  selector = object_labels (codes "broker") cr;
  publish_not_ready_addresses = false;
}

unfoldable pub create_broker_public_service : Undermoon → Service
create_broker_public_service cr = record {
  name = broker_public_service_name cr.name;
  namespace = cr.namespace;
  labels = object_labels (codes "broker") cr;
  port_name = codes "broker-port";
  port = broker_port;
  cluster_ip = [];
  selector = object_labels (codes "broker") cr;
  publish_not_ready_addresses = false;
}

-- `brokerStorageName`, `MetaSecretName` and `metaServiceHost` of controllers/meta.go; the
-- operator's namespace is an environment variable of its process.
unfoldable pub broker_storage_name : Bytes → Bytes → Bytes
broker_storage_name name namespace = name ++ (codes "@" ++ namespace)

unfoldable pub meta_secret_name : Bytes → Bytes
meta_secret_name name = name ++ codes "-sc"

unfoldable pub meta_config_map_name : Bytes → Bytes
meta_config_map_name name = name ++ codes "-cfg"

unfoldable pub meta_service_host : Bytes → Bytes
meta_service_host operator_namespace =
    codes "undermoon-operator-storage." ++ operator_namespace ++ codes ".svc.cluster.local"

-- The environment of the broker container before `BrokerEnvVar` is appended.
unfoldable pub broker_base_env : Bytes → Undermoon → List EnvVar
broker_base_env operator_namespace cr =
    text_var (codes "RUST_LOG") (codes "undermoon=info,mem_broker=info")
    ∷ text_var (codes "UNDERMOON_ADDRESS") (codes "0.0.0.0:" ++ dec broker_port)
    ∷ text_var (codes "UNDERMOON_FAILURE_TTL") (codes "60")
    ∷ text_var (codes "UNDERMOON_FAILURE_QUORUM") (codes "2")
    ∷ text_var (codes "UNDERMOON_MIGRATION_LIMIT") (dec cr.spec.migration_limit)
    ∷ text_var (codes "UNDERMOON_RECOVER_FROM_META_FILE") (codes "true")
    ∷ text_var (codes "UNDERMOON_META_FILENAME") (codes "metadata")
    ∷ text_var (codes "UNDERMOON_AUTO_UPDATE_META_FILE") (codes "true")
    ∷ text_var (codes "UNDERMOON_UPDATE_META_FILE_INTERVAL") (codes "10")
    ∷ text_var (codes "UNDERMOON_REPLICA_ADDRESSES") []
    ∷ text_var (codes "UNDERMOON_SYNC_META_INTERVAL") (codes "60")
    ∷ text_var (codes "UNDERMOON_ENABLE_ORDERED_PROXY") (codes "true")
    ∷ text_var (codes "UNDERMOON_DEBUG") (codes "false")
    ∷ text_var (codes "UNDERMOON_STORAGE_TYPE") (codes "http")
    ∷ text_var (codes "UNDERMOON_STORAGE_NAME") (broker_storage_name cr.name cr.namespace)
    ∷ record {
      name = codes "UNDERMOON_STORAGE_PASSWORD";
      value = [];
      value_from = some (from_secret (meta_secret_name cr.name) (codes "broker_meta_password"));
    }
    ∷ text_var (codes "UNDERMOON_HTTP_STORAGE_ADDRESS")
        (meta_service_host operator_namespace ++ (codes ":" ++ dec 9999))
    ∷ text_var (codes "UNDERMOON_REFRESH_INTERVAL") (codes "5")
    ∷ []

unfoldable pub broker_container : Bytes → Undermoon → Container
broker_container operator_namespace cr = record {
  name = codes "broker";
  image = cr.spec.undermoon_image;
  image_pull_policy = cr.spec.undermoon_image_pull_policy;
  command = lit (codes "mem_broker") ∷ [];
  args = [];
  env = broker_base_env operator_namespace cr ++ cr.spec.broker_env_var;
  resources = cr.spec.broker_resources;
  pre_stop = none;
  readiness_probe = none;
  working_dir = [];
  volume_mounts = 0;
  volume_devices = 0;
}

broker_affinity : Undermoon → Affinity × Option Affinity
broker_affinity cr =
    add_anti_affinity cr.spec.affinity (object_labels (codes "broker") cr) cr.namespace
      (codes "undermoon-broker-topology-key")

-- The manifest, and the custom resource with its affinity as the call leaves it.
unfoldable pub create_broker_stateful_set : Bytes → Undermoon → StatefulSet × Undermoon
unfolding broker_affinity broker_container
create_broker_stateful_set operator_namespace cr =
    let (affinity, cr_affinity) = broker_affinity cr in
    let labels : Labels = object_labels (codes "broker") cr in
    (
      record {
        name = broker_stateful_set_name cr.name;
        namespace = cr.namespace;
        labels = labels;
        resource_version = [];
        spec = record {
          selector = labels;
          service_name = broker_service_name cr.name;
          replicas = broker_num;
          template_labels = labels;
          template = record {
            termination_grace_period = none;
            containers = broker_container operator_namespace cr ∷ [];
            affinity = affinity;
            node_selector = cr.spec.node_selector;
            image_pull_secrets = cr.spec.image_pull_secrets;
            scheduler_name = cr.spec.scheduler_name;
            tolerations = cr.spec.tolerations;
            volumes = 0;
          };
          pod_management_policy = codes "Parallel";
          volume_claim_templates = 0;
        };
        status = record { ready_replicas = 0; current_replicas = 0; replicas = 0 };
      },
      record cr { spec = record cr.spec { affinity = cr_affinity } },
    )

module _ (quantity_equal : Opaque → Opaque → Bool) where
  -- `none` is the panic of `Containers[0]`.
  broker_containers_changed : Undermoon → List Container → Option Bool
  broker_containers_changed cr [] = none
  broker_containers_changed cr (c ∷ _) = some (
      if not (bytes_eq cr.spec.undermoon_image c.image)
      then true
      else if not (bytes_eq cr.spec.undermoon_image_pull_policy c.image_pull_policy)
      then true
      else if not (resource_requirements_equal quantity_equal cr.spec.broker_resources c.resources)
      then true
      else if env_var_list_need_update c.env cr.spec.broker_env_var
      then true
      else false)

  unfoldable pub broker_stateful_set_changed : Undermoon → StatefulSet → Option Bool
  unfolding broker_containers_changed
  broker_stateful_set_changed cr curr = broker_containers_changed cr curr.spec.template.containers

unfoldable pub gen_broker_fqdn : Bytes → Bytes → Bytes → Bytes
gen_broker_fqdn pod_name name namespace =
    pod_name
    ++ codes "."
    ++ broker_service_name name
    ++ codes "."
    ++ namespace
    ++ codes ".svc.cluster.local"

unfoldable pub gen_broker_public_fqdn : Bytes → Bytes → Bytes
gen_broker_public_fqdn name namespace =
    broker_public_service_name name ++ codes "." ++ namespace ++ codes ".svc.cluster.local"

unfoldable pub gen_broker_address_from_name : Bytes → Undermoon → Bytes
gen_broker_address_from_name pod_name cr =
    gen_broker_fqdn pod_name cr.name cr.namespace ++ (codes ":" ++ dec broker_port)
