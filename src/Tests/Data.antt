-- ===== src/Tests/Data.antt =====
-- A custom resource and the objects of its cluster.
use undermoon_operator.Prelude.{none, [], ◌∷◌, Bytes, codes, true, false}
use undermoon_operator.Controllers.Types.{
  EnvVar, ResourceRequirements, UndermoonSpec, Undermoon, StatefulSet, Service, ConfigMap, Secret,
}
use undermoon_operator.Controllers.Io.{ClusterInfo, ServerProxyMeta}
use undermoon_operator.Controllers.Utils.{empty_affinity}

abbrev pub no_requirements : ResourceRequirements
no_requirements = record { limits = []; requests = [] }

abbrev pub some_requirements : ResourceRequirements
some_requirements = record {
  limits = (codes "cpu", 2) ∷ (codes "memory", 7) ∷ [];
  requests = (codes "cpu", 1) ∷ [];
}

abbrev pub log_level : Bytes → EnvVar
log_level level = record { name = codes "RUST_LOG"; value = level; value_from = none }

abbrev pub sample_spec : UndermoonSpec
sample_spec = record {
  cluster_name = codes "mycluster";
  chunk_number = 2;
  max_memory = 48;
  port = 5299;
  active_redirection = true;
  proxy_threads = 2;
  migration_scan_interval = 500;
  migration_scan_count = 16;
  migration_limit = 2;
  disable_failover = false;
  undermoon_image = codes "undermoon:v1";
  undermoon_image_pull_policy = codes "IfNotPresent";
  redis_image = codes "redis:6";
  broker_env_var = log_level (codes "info") ∷ [];
  coordinator_env_var = [];
  proxy_env_var = log_level (codes "warn") ∷ [];
  redis_env_var = [];
  broker_resources = some_requirements;
  coordinator_resources = no_requirements;
  proxy_resources = some_requirements;
  redis_resources = no_requirements;
  affinity = none;
  node_selector = [];
  image_pull_secrets = 0;
  scheduler_name = codes "default-scheduler";
  tolerations = 0;
  storage_volumes = 0;
  redis_volume_mounts = 0;
  redis_volume_devices = 0;
  volume_claim_templates = 0;
}

abbrev pub sample_cr : Undermoon
sample_cr = record {
  name = codes "um";
  namespace = codes "db";
  spec = sample_spec;
  status = record {
    master_broker_address = [];
    scale_state = codes "Stable";
    scale_down_wait_timestamp = 0;
  };
}

-- After the announcement of a scale-down at time five.
abbrev pub waiting_cr : Undermoon
waiting_cr = record sample_cr {
  status = record {
    master_broker_address = [];
    scale_state = codes "ScaleDownWait";
    scale_down_wait_timestamp = 5;
  };
}

-- Two variables of one name that differ.
abbrev pub conflicting_cr : Undermoon
conflicting_cr = record sample_cr {
  spec = record sample_spec {
    proxy_env_var = log_level (codes "warn") ∷ log_level (codes "info") ∷ [];
  };
}

abbrev pub sample_stateful_set : StatefulSet
sample_stateful_set = record {
  name = codes "um-stg-ss";
  namespace = codes "db";
  labels = [];
  resource_version = codes "41";
  spec = record {
    selector = [];
    service_name = codes "um-stg-svc";
    replicas = 6;
    template_labels = [];
    template = record {
      termination_grace_period = none;
      containers = [];
      affinity = empty_affinity;
      node_selector = [];
      image_pull_secrets = 0;
      scheduler_name = [];
      tolerations = 0;
      volumes = 0;
    };
    pod_management_policy = [];
    volume_claim_templates = 0;
  };
  status = record { ready_replicas = 6; current_replicas = 6; replicas = 6 };
}

abbrev pub sample_service : Service
sample_service = record {
  name = codes "um-stg-svc";
  namespace = codes "db";
  labels = [];
  port_name = [];
  port = 5299;
  cluster_ip = [];
  selector = [];
  publish_not_ready_addresses = false;
}

abbrev pub sample_config_map : ConfigMap
sample_config_map = record {
  name = codes "um-cfg";
  namespace = codes "db";
  labels = [];
  resource_version = codes "7";
  contents = (codes "broker_meta_store", []) ∷ [];
}

abbrev pub sample_secret : Secret
sample_secret = record { name = codes "um-sc"; namespace = codes "db"; labels = []; contents = [] }

abbrev pub sample_info : ClusterInfo
sample_info = record {
  name = codes "mycluster";
  node_number = 8;
  node_number_with_slots = 8;
  is_migrating = false;
}

abbrev pub sample_proxy : ServerProxyMeta
sample_proxy = record {
  proxy_address = codes "a:5299";
  redis_address1 = codes "a:7001";
  redis_address2 = codes "a:7002";
  host = codes "a";
  index = 0;
}
