-- ===== src/Tests/Runs.antt =====
-- controllers/: runs against a server and brokers that answer, and brokers that do not.
use undermoon_operator.Prelude.{
  ℕ, ◌*◌, ◌≡◌, ◌⊎◌, refl, arith, some, [], ◌∷◌, codes, bytes_eq, true, false, ◌==◌, dec,
}
use undermoon_operator.Controllers.Types.{StatefulSet, Undermoon}
use undermoon_operator.Controllers.BrokerClient as Client
use undermoon_operator.Controllers.BrokerClient.{
  replica_addresses_reply, epoch_reply, scale_nodes_reply, remove_free_nodes_reply,
}
use undermoon_operator.Controllers.Io.{
  ◌>>=◌, ◌>>◌, ok, external_timeout, ClusterInfo, sent, delete_free_nodes, post_scale,
}
use undermoon_operator.Controllers.Io.Keeps.{AllEvents}
use undermoon_operator.Controllers.Utils.{
  resource_requirements_equal, env_var_list_need_update, env_var_eq, source_eq, option_eq,
  object_field_eq, key_eq, get_env_value, pod_ip_env, pod_name_env, int32_le_int,
}
use undermoon_operator.Controllers.Storage.{
  gen_storage_stateful_set_addrs, gen_storage_names, gen_storage_fqdn_from_name, gen_storage_fqdn,
  storage_stateful_set_name, storage_service_name, storage_stateful_set_pod_name,
  gen_storage_address_from_name,
}
use undermoon_operator.Controllers.MetaController.{member, reconcile_meta, change_meta}
use undermoon_operator.Controllers.MetaController.Registry.{SparesInUse, reconcile_meta-SparesInUse}
use undermoon_operator.Controllers.MetaController.Scaling.{change_meta_ok}
use undermoon_operator.Controllers.StorageController.{
  is_empty, get_endpoints, storage_all_ready_and_stable, scale_down_storage_stateful_set,
  server_proxy_of,
}
use undermoon_operator.Controllers.StorageController.ScaleDown.{
  IsPermitted, scale_down-IsPermitted, scale_down_waits, scale_down_unannounced, StartsWith,
  scaled_to,
}
use undermoon_operator.Controllers.StorageController.Names.{server_proxy_of-pod_name}
use undermoon_operator.Controllers.BrokerController.{
  get_current_master, broker_all_ready, coordinator_all_ready,
}
use undermoon_operator.Controllers.BrokerController.Master.{
  get_current_master-IsNoneOrOf, get_current_master_silent,
}
use undermoon_operator.Controllers.Broker.{
  broker_base_env, create_broker_stateful_set, broker_stateful_set_changed,
}
use undermoon_operator.Controllers.Coordinator.{
  create_coordinator_stateful_set, coordinator_stateful_set_changed,
}
use undermoon_operator.Controllers.Storage.{
  storage_stateful_set_changed, create_storage_stateful_set, redis_base_env, proxy_base_env,
  format_bool,
}
use undermoon_operator.Controllers.Reconciler.{
  retry_after, done, finish_scaling, Config, UmResource, reconcile, trigger_rolling_update,
}
use undermoon_operator.Controllers.Reconciler.Versions.{HasVersion, reconcile-HasVersion}
use undermoon_operator.Controllers.Reconciler.Done.{finish_scaling_done}
use undermoon_operator.Controllers.Reconciler.Order.{trigger_rolling_update-settled}
use undermoon_operator.Tests.Data.{
  sample_cr, waiting_cr, sample_stateful_set, sample_service, sample_info, sample_proxy,
}
use undermoon_operator.Tests.Outsides.{server, silent_server, start}

abbrev config : Config
config = record { operator_namespace = codes "op"; quantity_equal = ◌==◌; compress = ok }

reconcile-HasVersion_example :
    AllEvents HasVersion
      (reconcile server config
        (codes "db")
        (codes "um")
        (record { env = 40000000000; log = [] })).1.log
reconcile-HasVersion_example =
    reconcile-HasVersion server config (codes "db") (codes "um") 40000000000

scale_down-IsPermitted_example :
    AllEvents
      (IsPermitted waiting_cr sample_info)
      (scale_down_storage_stateful_set server waiting_cr sample_stateful_set sample_info
        (record { env = 40000000000; log = [] })).1.log
scale_down-IsPermitted_example =
    scale_down-IsPermitted server waiting_cr sample_stateful_set sample_info 40000000000

scale_down_waits_example :
    (scale_down_storage_stateful_set server waiting_cr sample_stateful_set sample_info
      (start 9)).1.log
    ≡ []
scale_down_waits_example =
    scale_down_waits server waiting_cr sample_stateful_set sample_info (start 9) 9 refl
      (omega arith) refl

-- The scale-down from three chunks to two is announced, cancelled, and asked for again.
abbrev cancelled_cr : Undermoon
cancelled_cr = record waiting_cr { spec = record waiting_cr.spec { chunk_number = 3 } }

abbrev cancelled_info : ClusterInfo
cancelled_info = record sample_info { node_number_with_slots = 12 }

cancelled_runs :
    (scale_down_storage_stateful_set server cancelled_cr sample_stateful_set cancelled_info
      (start 9)).0
    ≡ ok (cancelled_cr, sample_stateful_set)
unfolding scale_down_storage_stateful_set ◌>>=◌
cancelled_runs = refl

sample_versioned : is_empty sample_stateful_set.resource_version ≡ false
unfolding is_empty
sample_versioned = refl

scale_down_unannounced_example :
    (cancelled_cr ≡ cancelled_cr)
    × ((scale_down_storage_stateful_set server cancelled_cr sample_stateful_set cancelled_info
          (start 9)).1.log
        ≡ [])
    × StartsWith
        (scaled_to waiting_cr sample_stateful_set)
        []
        (scale_down_storage_stateful_set server waiting_cr sample_stateful_set sample_info
          (start 40000000000)).1.log
scale_down_unannounced_example =
    scale_down_unannounced server cancelled_cr cancelled_cr waiting_cr sample_stateful_set
      sample_stateful_set sample_stateful_set cancelled_info sample_info (start 9)
      (start 40000000000) 40000000000 refl refl cancelled_runs refl (λ h. ground (arith, h)) refl
      sample_versioned refl (omega arith)

reconcile_meta-SparesInUse_example :
    AllEvents
      (SparesInUse sample_cr (sample_proxy ∷ []))
      (reconcile_meta server
        (codes "b0")
        (codes "b1" ∷ [])
        (sample_proxy ∷ [])
        sample_cr
        true
        (record { env = 3; log = [] })).1.log
reconcile_meta-SparesInUse_example =
    reconcile_meta-SparesInUse server (codes "b0") (codes "b1" ∷ []) (sample_proxy ∷ []) sample_cr
      true 3

change_meta_runs : (change_meta server (codes "b0") sample_cr sample_info (start 3)).0 ≡ ok tt
unfolding change_meta ◌>>=◌ Client.scale_nodes Client.remove_free_nodes scale_nodes_reply
    remove_free_nodes_reply
change_meta_runs = refl

change_meta_ok_example :
    (false ≡ false)
    × ((change_meta server (codes "b0") sample_cr sample_info (start 3)).1.log
        ≡ sent (delete_free_nodes (codes "b0") (codes "mycluster"))
          ∷ sent (post_scale (codes "b0") (codes "mycluster") 8)
          ∷ [])
change_meta_ok_example =
    change_meta_ok server (codes "b0") sample_cr sample_info (start 3) change_meta_runs

server_proxy_of-pod_name_example :
    ((server_proxy_of sample_cr (storage_stateful_set_pod_name (codes "um") 3)).proxy_address
      ≡ gen_storage_address_from_name (storage_stateful_set_pod_name (codes "um") 3) sample_cr)
    × ((server_proxy_of sample_cr (storage_stateful_set_pod_name (codes "um") 3)).index ≡ 3)
server_proxy_of-pod_name_example = server_proxy_of-pod_name sample_cr 3 (omega arith)

current_master_runs :
    (get_current_master server (codes "b0" ∷ codes "b1" ∷ []) (start 3)).0 ≡ ok (codes "b0")
unfolding get_current_master ◌>>=◌ Client.get_replica_addresses replica_addresses_reply
    Client.get_broker_epoch epoch_reply bytes_eq
current_master_runs = refl

get_current_master-IsNoneOrOf_example :
    (codes "b0" ≡ []) ⊎ (member (codes "b0") (codes "b0" ∷ codes "b1" ∷ []) ≡ true)
get_current_master-IsNoneOrOf_example =
    get_current_master-IsNoneOrOf server (codes "b0" ∷ codes "b1" ∷ []) (start 3) (codes "b0")
      current_master_runs

get_current_master_silent_example :
    (get_current_master silent_server (codes "b0" ∷ codes "b1" ∷ []) (start 3)).0 ≡ ok []
get_current_master_silent_example =
    get_current_master_silent silent_server external_timeout (λ req e. refl) (codes "b0")
      (codes "b1" ∷ []) (start 3)

abbrev with_pods : ℕ → StatefulSet → StatefulSet
with_pods n s = record s {
  status = record { ready_replicas = n; current_replicas = n; replicas = n };
}

abbrev deployed : UmResource
deployed = record {
  broker_stateful_set = with_pods 2 (create_broker_stateful_set (codes "op") sample_cr).0;
  coordinator_stateful_set = with_pods 3 (create_coordinator_stateful_set sample_cr).0;
  storage_stateful_set = with_pods 4 (create_storage_stateful_set sample_cr).0;
  broker_service = sample_service;
  coordinator_service = sample_service;
  storage_service = sample_service;
  cr = sample_cr;
}

settled_runs :
    (trigger_rolling_update server config deployed deployed.storage_stateful_set sample_cr
      (start 3)).0
    ≡ ok tt
unfolding trigger_rolling_update ◌>>=◌ bytes_eq create_broker_stateful_set
    create_coordinator_stateful_set create_storage_stateful_set broker_stateful_set_changed
    coordinator_stateful_set_changed storage_stateful_set_changed resource_requirements_equal
    env_var_list_need_update broker_base_env env_var_eq source_eq option_eq object_field_eq key_eq
    broker_all_ready get_endpoints coordinator_all_ready dec get_env_value redis_base_env pod_ip_env
    format_bool proxy_base_env pod_name_env storage_all_ready_and_stable int32_le_int
settled_runs = refl

trigger_rolling_update-settled_example :
    (broker_stateful_set_changed ◌==◌ sample_cr deployed.broker_stateful_set ≡ some false)
    × (coordinator_stateful_set_changed ◌==◌ sample_cr deployed.coordinator_stateful_set
        ≡ some false)
    × (storage_stateful_set_changed ◌==◌ sample_cr deployed.storage_stateful_set ≡ some false)
    × ((trigger_rolling_update server config deployed deployed.storage_stateful_set sample_cr
          (start 3)).1.log
        ≡ [])
trigger_rolling_update-settled_example =
    trigger_rolling_update-settled server config deployed deployed.storage_stateful_set sample_cr
      (start 3) settled_runs

finishing_runs :
    (finish_scaling server config deployed sample_cr (codes "b0") [] true (start 3)).0 ≡ ok done
unfolding finish_scaling retry_after scale_down_storage_stateful_set reconcile_meta ◌>>=◌ ◌>>◌
    Client.set_broker_replicas Client.set_broker_replicas_reply Client.get_server_proxies
    Client.server_proxies_reply gen_storage_stateful_set_addrs gen_storage_names bytes_eq
    gen_storage_address_from_name gen_storage_fqdn_from_name gen_storage_fqdn
    storage_stateful_set_pod_name storage_stateful_set_name storage_service_name
    Client.deregister_server_proxy Client.deregister_reply Client.cluster_exists
    Client.cluster_exists_reply Client.change_cluster_config Client.change_config_reply
    Client.get_cluster_info Client.cluster_info_reply dec trigger_rolling_update
    create_broker_stateful_set create_coordinator_stateful_set create_storage_stateful_set
    broker_stateful_set_changed coordinator_stateful_set_changed storage_stateful_set_changed
    resource_requirements_equal env_var_list_need_update broker_base_env env_var_eq source_eq
    option_eq object_field_eq key_eq broker_all_ready get_endpoints coordinator_all_ready
    get_env_value redis_base_env pod_ip_env format_bool proxy_base_env pod_name_env
    storage_all_ready_and_stable int32_le_int
finishing_runs = refl

meta_runs : (reconcile_meta server (codes "b0") [] [] sample_cr true (start 3)).0 ≡ ok sample_info
unfolding reconcile_meta ◌>>=◌ ◌>>◌ Client.set_broker_replicas Client.set_broker_replicas_reply
    Client.get_server_proxies Client.server_proxies_reply gen_storage_stateful_set_addrs
    gen_storage_names bytes_eq gen_storage_address_from_name gen_storage_fqdn_from_name
    gen_storage_fqdn storage_stateful_set_pod_name storage_stateful_set_name storage_service_name
    Client.deregister_server_proxy Client.deregister_reply Client.cluster_exists
    Client.cluster_exists_reply Client.change_cluster_config Client.change_config_reply
    Client.get_cluster_info Client.cluster_info_reply dec
meta_runs = refl

scaling_runs :
    (scale_down_storage_stateful_set server sample_cr deployed.storage_stateful_set sample_info
      (reconcile_meta server (codes "b0") [] [] sample_cr true (start 3)).1).0
    ≡ ok (sample_cr, deployed.storage_stateful_set)
unfolding scale_down_storage_stateful_set create_storage_stateful_set reconcile_meta ◌>>=◌ ◌>>◌
    Client.set_broker_replicas Client.set_broker_replicas_reply Client.get_server_proxies
    Client.server_proxies_reply gen_storage_stateful_set_addrs gen_storage_names bytes_eq
    gen_storage_address_from_name gen_storage_fqdn_from_name gen_storage_fqdn
    storage_stateful_set_pod_name storage_stateful_set_name storage_service_name
    Client.deregister_server_proxy Client.deregister_reply Client.cluster_exists
    Client.cluster_exists_reply Client.change_cluster_config Client.change_config_reply
    Client.get_cluster_info Client.cluster_info_reply dec
scaling_runs = refl

finish_scaling_done_example :
    (sample_info.node_number_with_slots ≡ sample_cr.spec.chunk_number * 4)
    × (broker_stateful_set_changed ◌==◌ sample_cr deployed.broker_stateful_set ≡ some false)
    × (coordinator_stateful_set_changed ◌==◌ sample_cr deployed.coordinator_stateful_set
        ≡ some false)
    × (storage_stateful_set_changed ◌==◌ sample_cr deployed.storage_stateful_set ≡ some false)
finish_scaling_done_example =
    finish_scaling_done server config deployed sample_cr (codes "b0") [] true (start 3) sample_info
      (sample_cr, deployed.storage_stateful_set) meta_runs scaling_runs finishing_runs
