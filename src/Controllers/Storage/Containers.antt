-- ===== src/Controllers/Storage/Containers.antt =====
-- controllers/storage.go: the containers of a storage pod.
use undermoon_operator.Prelude.{
  ℕ, Option, some, List, [], ◌∷◌, ◌++◌, Bytes, codes, dec, Bool, true, false,
}
use undermoon_operator.Controllers.Types.{
  Undermoon, EnvVar, Container, Probe, Word, lit, format, server_proxy_run, server_proxy_pre_stop,
  redis_readiness, server_proxy_ready,
}
use undermoon_operator.Controllers.Utils.{
  text_var, pod_name_env, pod_ip_env, gen_pre_stop_hook_life_cycle,
}
use undermoon_operator.Controllers.Broker.{gen_broker_public_fqdn, broker_port}
use undermoon_operator.Controllers.Storage.Names.{
  storage_stateful_set_pod_name, gen_storage_fqdn_from_name, gen_storage_address_from_name,
}

unfoldable pub format_bool : Bool → Bytes
format_bool true = codes "true"
format_bool false = codes "false"

first_proxy_address : Undermoon → Bytes
first_proxy_address cr = gen_storage_address_from_name (storage_stateful_set_pod_name cr.name 0) cr

-- The environment of the server proxy before `ProxyEnvVar` is appended.
unfoldable pub proxy_base_env : Undermoon → List EnvVar
unfolding first_proxy_address
proxy_base_env cr =
    pod_name_env
    ∷ text_var (codes "RUST_LOG") (codes "undermoon=info,server_proxy=info")
    ∷ text_var (codes "UNDERMOON_ADDRESS") (codes "0.0.0.0:" ++ dec cr.spec.port)
    ∷ text_var (codes "UNDERMOON_AUTO_SELECT_CLUSTER") (codes "true")
    ∷ text_var (codes "UNDERMOON_SLOWLOG_LEN") (codes "1024")
    ∷ text_var (codes "UNDERMOON_SLOWLOG_LOG_SLOWER_THAN") (codes "10000")
    ∷ text_var (codes "UNDERMOON_SLOWLOG_SAMPLE_RATE") (codes "1000")
    ∷ text_var (codes "UNDERMOON_SESSION_CHANNEL_SIZE") (codes "4096")
    ∷ text_var (codes "UNDERMOON_BACKEND_CHANNEL_SIZE") (codes "4096")
    ∷ text_var (codes "UNDERMOON_BACKEND_BATCH_MIN_TIME") (codes "20000")
    ∷ text_var (codes "UNDERMOON_BACKEND_BATCH_MAX_TIME") (codes "400000")
    ∷ text_var (codes "UNDERMOON_SESSION_BATCH_MIN_TIME") (codes "20000")
    ∷ text_var (codes "UNDERMOON_SESSION_BATCH_MAX_TIME") (codes "400000")
    ∷ text_var (codes "UNDERMOON_ACTIVE_REDIRECTION") (format_bool cr.spec.active_redirection)
    ∷ text_var (codes "UNDERMOON_DEFAULT_REDIRECTION_ADDRESS") (first_proxy_address cr)
    ∷ text_var (codes "UNDERMOON_THREAD_NUMBER") (dec cr.spec.proxy_threads)
    ∷ text_var (codes "UNDERMOON_BACKEND_BATCH_STRATEGY") (codes "disabled")
    ∷ []

gen_server_proxy_pre_stop_hook : Bytes → Bytes → Bytes → Option (List Word)
gen_server_proxy_pre_stop_hook name namespace server_proxy_address = gen_pre_stop_hook_life_cycle (
    lit (codes "sh")
    ∷ lit (codes "-c")
    ∷ format server_proxy_pre_stop (
        dec 30
        ∷ (gen_broker_public_fqdn name namespace ++ (codes ":" ++ dec broker_port))
        ∷ server_proxy_address
        ∷ [])
    ∷ [])

gen_server_proxy_readiness_probe : ℕ → Option Probe
gen_server_proxy_readiness_probe port = some (record {
  command = lit (codes "bash") ∷ lit (codes "-c") ∷ format server_proxy_ready (dec port ∷ []) ∷ [];
  timeout_seconds = 0;
  period_seconds = 1;
  success_threshold = 1;
  failure_threshold = 1;
})

gen_redis_readiness_probe : ℕ → ℕ → Option Probe
gen_redis_readiness_probe port offset_threshold = some (record {
  command =
      lit (codes "sh")
      ∷ lit (codes "-c")
      ∷ format redis_readiness []
      ∷ lit (codes "/redis-state/redis-ready")
      ∷ lit (dec port)
      ∷ lit (dec offset_threshold)
      ∷ [];
  timeout_seconds = 3;
  period_seconds = 5;
  success_threshold = 1;
  failure_threshold = 1;
})

unfoldable pub redis_base_env : ℕ → List EnvVar
redis_base_env max_memory = pod_ip_env ∷ text_var (codes "REDIS_MAX_MEMORY") (dec max_memory) ∷ []

redis_args : ℕ → List Bytes
redis_args port =
    codes "--maxmemory"
    ∷ codes "$(REDIS_MAX_MEMORY)MB"
    ∷ codes "--port"
    ∷ dec port
    ∷ codes "--slave-announce-port"
    ∷ dec port
    ∷ codes "--slave-announce-ip"
    ∷ codes "$(UM_POD_IP)"
    ∷ codes "--maxmemory-policy"
    ∷ codes "allkeys-lru"
    ∷ codes "--slaveof"
    ∷ codes "localhost"
    ∷ codes "0"
    ∷ []

unfoldable pub gen_redis_container : ℕ → Bytes → ℕ → ℕ → Undermoon → Container
unfolding gen_redis_readiness_probe redis_args
gen_redis_container index redis_image max_memory port cr = record {
  name = codes "redis-" ++ dec index;
  image = redis_image;
  image_pull_policy = codes "IfNotPresent";
  command = lit (codes "redis-server") ∷ [];
  args = redis_args port;
  env = redis_base_env max_memory ++ cr.spec.redis_env_var;
  resources = cr.spec.redis_resources;
  pre_stop = gen_pre_stop_hook_life_cycle (lit (codes "sleep") ∷ lit (codes "30") ∷ []);
  readiness_probe = gen_redis_readiness_probe port 10000;
  working_dir = codes "/data/" ++ dec index;
  volume_mounts = cr.spec.redis_volume_mounts;
  volume_devices = cr.spec.redis_volume_devices;
}

unfoldable pub server_proxy_container : Undermoon → Container
unfolding gen_server_proxy_pre_stop_hook gen_server_proxy_readiness_probe
server_proxy_container cr =
    let port : Bytes = codes ":" ++ dec cr.spec.port in
    record {
      name = codes "server-proxy";
      image = cr.spec.undermoon_image;
      image_pull_policy = cr.spec.undermoon_image_pull_policy;
      command =
          lit (codes "sh")
          ∷ lit (codes "-c")
          ∷ format server_proxy_run
              ((gen_storage_fqdn_from_name (codes "$(UM_POD_NAME)") cr ++ port) ∷ [])
          ∷ [];
      args = [];
      env = proxy_base_env cr ++ cr.spec.proxy_env_var;
      resources = cr.spec.proxy_resources;
      pre_stop =
          gen_server_proxy_pre_stop_hook cr.name cr.namespace
            (gen_storage_fqdn_from_name (codes "${UM_POD_NAME}") cr ++ port);
      readiness_probe = gen_server_proxy_readiness_probe cr.spec.port;
      working_dir = [];
      volume_mounts = 0;
      volume_devices = 0;
    }
