-- ===== src/Controllers/BrokerClient.antt =====
-- The HTTP client of the brokers, controllers/broker_client.go: the requests, with the replies'
-- meaning from Replies.
mod Replies
pub mod Requests
unfoldable pub use undermoon_operator.Controllers.BrokerClient.Replies.*
use undermoon_operator.Prelude.{
  ℕ, ◌+◌, ◌*◌, Option, none, some, List, [], ◌∷◌, ◌++◌, Bytes, codes, bytes_eq, dec, Bool, true,
  false, not, ◌&&◌, ◌||◌, if◌then◌else◌, ◌==◌,
}
use undermoon_operator.Controllers.Utils.{chunk_node_number}
use undermoon_operator.Controllers.Io.{
  Io, Outside, Result, ok, err, Error, retry_reconciliation, migration_running, free_node_found,
  external_timeout, proxy_resource_out_of_order, failure, panic, ServerProxyMeta, ClusterInfo,
  HttpRequest, get_config, get_epoch, get_proxies, get_names, put_config, post_proxy, delete_proxy,
  post_cluster, post_scale, delete_free_nodes, get_info, patch_config, HttpResponse, Payload,
  addresses, epoch, info, nothing, sent, request, lift, ◌>>=◌,
}

module _ {E : Type 0} (o : Outside E) where
  -- A request, and the meaning of its reply; an error in sending is passed on.
  unfoldable pub call : {A : Type 0} → HttpRequest → (HttpResponse → Result A) → Io E A
  call req meaning = request (sent req) (o.http req) >>= λ r. lift (meaning r)

  unfoldable pub get_replica_addresses : Bytes → Io E (List Bytes)
  unfolding call
  get_replica_addresses address = call (get_config address) replica_addresses_reply

  unfoldable pub get_broker_epoch : Bytes → Io E ℕ
  unfolding call
  get_broker_epoch address = call (get_epoch address) epoch_reply

  unfoldable pub get_server_proxies : Bytes → Io E (List Bytes)
  unfolding call
  get_server_proxies address = call (get_proxies address) server_proxies_reply

  unfoldable pub set_broker_replicas : Bytes → List Bytes → Io E (Unit {0})
  unfolding call
  set_broker_replicas address replicas =
      call (put_config address replicas) set_broker_replicas_reply

  unfoldable pub register_server_proxy : Bytes → ServerProxyMeta → Io E (Unit {0})
  unfolding call
  register_server_proxy address proxy = call (post_proxy address proxy) register_reply

  unfoldable pub deregister_server_proxy : Bytes → Bytes → Io E (Unit {0})
  unfolding call
  deregister_server_proxy address proxy = call (delete_proxy address proxy) deregister_reply

  unfoldable pub create_cluster : Bytes → Bytes → ℕ → Io E (Unit {0})
  unfolding call
  create_cluster address name chunk_number =
      call (post_cluster address name (chunk_number * chunk_node_number)) create_cluster_reply

  unfoldable pub cluster_exists : Bytes → Bytes → Io E Bool
  unfolding call
  cluster_exists address name = call (get_names address) (cluster_exists_reply name)

  unfoldable pub scale_nodes : Bytes → Bytes → ℕ → Io E (Unit {0})
  unfolding call
  scale_nodes address name chunk_number =
      call (post_scale address name (chunk_number * chunk_node_number)) scale_nodes_reply

  unfoldable pub remove_free_nodes : Bytes → Bytes → Io E (Unit {0})
  unfolding call
  remove_free_nodes address name = call (delete_free_nodes address name) remove_free_nodes_reply

  unfoldable pub get_cluster_info : Bytes → Bytes → Io E ClusterInfo
  unfolding call
  get_cluster_info address name = call (get_info address name) cluster_info_reply

  unfoldable pub change_cluster_config : Bytes → Bytes → ℕ → ℕ → Io E (Unit {0})
  unfolding call
  change_cluster_config address name scan_interval scan_count =
      call (patch_config address name scan_interval scan_count) change_config_reply
