-- ===== src/Controllers/Types.antt =====
-- The custom resource of api/v1alpha1/undermoon_types.go, and the fields of Kubernetes objects that
-- controllers/ reads or writes.
use undermoon_operator.Prelude.{ℕ, Option, List, Bytes, Bool}

-- A value of a Kubernetes type that the program only passes on (a volume, a toleration, a
-- quantity): a token for it.
abbrev pub Opaque : Type 0
Opaque = ℕ

-- A Go `map[string]string`.
abbrev pub Labels : Type 0
Labels = List (Bytes × Bytes)

pub record ObjectFieldSelector : Type 0 where
  pub api_version : Bytes
  pub field_path : Bytes

pub record ResourceFieldSelector : Type 0 where
  pub container_name : Bytes
  pub resource : Bytes
  pub divisor : Opaque

-- `ConfigMapKeySelector` and `SecretKeySelector`, which have the same fields.
pub record KeySelector : Type 0 where
  pub name : Bytes
  pub key : Bytes
  pub optional : Option Bool

-- `corev1.EnvVarSource`, of which a well-formed one sets one field.
pub record EnvVarSource : Type 0 where
  pub field_ref : Option ObjectFieldSelector
  pub resource_field_ref : Option ResourceFieldSelector
  pub config_map_key_ref : Option KeySelector
  pub secret_key_ref : Option KeySelector

pub record EnvVar : Type 0 where
  pub name : Bytes
  pub value : Bytes
  pub value_from : Option EnvVarSource

abbrev pub ResourceList : Type 0
ResourceList = List (Bytes × Opaque)

pub record ResourceRequirements : Type 0 where
  pub limits : ResourceList
  pub requests : ResourceList

pub record PodAffinityTerm : Type 0 where
  pub weight : ℕ
  pub match_labels : Labels
  pub namespaces : List Bytes
  pub topology_key : Bytes

pub record PodAntiAffinity : Type 0 where
  pub required : Opaque
  pub preferred : List PodAffinityTerm

pub record Affinity : Type 0 where
  pub node_affinity : Opaque
  pub pod_affinity : Opaque
  pub pod_anti_affinity : Option PodAntiAffinity

-- `UndermoonSpec`; its `uint32` fields are numbers.
pub record UndermoonSpec : Type 0 where
  pub cluster_name : Bytes
  pub chunk_number : ℕ
  pub max_memory : ℕ
  pub port : ℕ
  pub active_redirection : Bool
  pub proxy_threads : ℕ
  pub migration_scan_interval : ℕ
  pub migration_scan_count : ℕ
  pub migration_limit : ℕ
  pub disable_failover : Bool
  pub undermoon_image : Bytes
  pub undermoon_image_pull_policy : Bytes
  pub redis_image : Bytes
  pub broker_env_var : List EnvVar
  pub coordinator_env_var : List EnvVar
  pub proxy_env_var : List EnvVar
  pub redis_env_var : List EnvVar
  pub broker_resources : ResourceRequirements
  pub coordinator_resources : ResourceRequirements
  pub proxy_resources : ResourceRequirements
  pub redis_resources : ResourceRequirements
  pub affinity : Option Affinity
  pub node_selector : Labels
  pub image_pull_secrets : Opaque
  pub scheduler_name : Bytes
  pub tolerations : Opaque
  pub storage_volumes : Opaque
  pub redis_volume_mounts : Opaque
  pub redis_volume_devices : Opaque
  pub volume_claim_templates : Opaque

-- `UndermoonStatus`; times are counted in nanoseconds.
pub record UndermoonStatus : Type 0 where
  pub master_broker_address : Bytes
  pub scale_state : Bytes
  pub scale_down_wait_timestamp : ℕ

pub record Undermoon : Type 0 where
  pub name : Bytes
  pub namespace : Bytes
  pub spec : UndermoonSpec
  pub status : UndermoonStatus

-- The shell scripts and `printf` formats that commands are made of.
pub data Script : Type 0 where
  server_proxy_run server_proxy_pre_stop redis_readiness server_proxy_ready : Script

-- A word of a command: a text, or a script with what is printed into it.
pub data Word : Type 0 where
  lit : Bytes → Word
  format : Script → List Bytes → Word

pub record Probe : Type 0 where
  pub command : List Word
  pub timeout_seconds : ℕ
  pub period_seconds : ℕ
  pub success_threshold : ℕ
  pub failure_threshold : ℕ

pub record Container : Type 0 where
  pub name : Bytes
  pub image : Bytes
  pub image_pull_policy : Bytes
  pub command : List Word
  pub args : List Bytes
  pub env : List EnvVar
  pub resources : ResourceRequirements
  pub pre_stop : Option (List Word)
  pub readiness_probe : Option Probe
  pub working_dir : Bytes
  pub volume_mounts : Opaque
  pub volume_devices : Opaque

pub record PodSpec : Type 0 where
  pub termination_grace_period : Option ℕ
  pub containers : List Container
  pub affinity : Affinity
  pub node_selector : Labels
  pub image_pull_secrets : Opaque
  pub scheduler_name : Bytes
  pub tolerations : Opaque
  pub volumes : Opaque

-- `replicas` is an `int32`, as its bit pattern below 2^32.
pub record StatefulSetSpec : Type 0 where
  pub selector : Labels
  pub service_name : Bytes
  pub replicas : ℕ
  pub template_labels : Labels
  pub template : PodSpec
  pub pod_management_policy : Bytes
  pub volume_claim_templates : Opaque

pub record StatefulSetStatus : Type 0 where
  pub ready_replicas : ℕ
  pub current_replicas : ℕ
  pub replicas : ℕ

pub record StatefulSet : Type 0 where
  pub name : Bytes
  pub namespace : Bytes
  pub labels : Labels
  pub resource_version : Bytes
  pub spec : StatefulSetSpec
  pub status : StatefulSetStatus

pub record Service : Type 0 where
  pub name : Bytes
  pub namespace : Bytes
  pub labels : Labels
  pub port_name : Bytes
  pub port : ℕ
  pub cluster_ip : Bytes
  pub selector : Labels
  pub publish_not_ready_addresses : Bool

pub record ConfigMap : Type 0 where
  pub name : Bytes
  pub namespace : Bytes
  pub labels : Labels
  pub resource_version : Bytes
  pub contents : Labels

pub record Secret : Type 0 where
  pub name : Bytes
  pub namespace : Bytes
  pub labels : Labels
  pub contents : Labels
