-- ===== src/Controllers/MetaController.antt =====
-- controllers/meta_controller.go: what the operator tells the brokers about the cluster.
pub mod Scaling
pub mod Registry
pub mod Sends
use undermoon_operator.Prelude.{
  ℕ, Option, none, some, List, [], ◌∷◌, ◌++◌, Bytes, bytes_eq, Bool, true, false, not, ◌||◌,
  if◌then◌else◌,
}
use undermoon_operator.Controllers.Types.{Undermoon}
use undermoon_operator.Controllers.Io.{
  Io, Outside, Result, ok, err, Error, is_retry, retry_reconciliation, migration_running,
  free_node_found, external_timeout, proxy_resource_out_of_order, ServerProxyMeta, ClusterInfo,
  pure, raise, handle, ◌>>=◌, ◌>>◌,
}
use undermoon_operator.Controllers.Storage.{gen_storage_stateful_set_addrs}
use undermoon_operator.Controllers.BrokerClient as Client

-- `keepSet`: the pods of the specified chunks, and the proxies that there are.
unfoldable pub member : Bytes → List Bytes → Bool
member a [] = false
member a (x ∷ xs) = if bytes_eq x a then true else member a xs

unfoldable pub proxy_addresses : List ServerProxyMeta → List Bytes
proxy_addresses [] = []
proxy_addresses (p ∷ ps) = p.proxy_address ∷ proxy_addresses ps

unfoldable pub keep_set : Undermoon → List ServerProxyMeta → List Bytes
unfolding proxy_addresses
keep_set cr proxies = gen_storage_stateful_set_addrs cr ++ proxy_addresses proxies

unfoldable pub delete_list : List Bytes → List Bytes → List Bytes
unfolding member
delete_list keep [] = []
delete_list keep (a ∷ existing) =
    let rest = delete_list keep existing in if member a keep then rest else a ∷ rest

-- The error that a failed scaling request leads to; `none` goes on to remove the free nodes.
unfoldable pub scale_error : Error → Option Error
scale_error free_node_found = none
scale_error migration_running = some retry_reconciliation
scale_error proxy_resource_out_of_order = some retry_reconciliation
scale_error e = some e

unfoldable pub running_to_retry : Error → Error
running_to_retry migration_running = retry_reconciliation
running_to_retry e = e

module _ {E : Type 0} (o : Outside E) where
  set_replicas_loop : List Bytes → Io E (Unit {0})
  set_replicas_loop [] = pure tt
  set_replicas_loop (a ∷ as') = Client.set_broker_replicas o a [] >> set_replicas_loop as'

  unfoldable pub set_broker_replicas : Bytes → List Bytes → Io E (Unit {0})
  unfolding set_replicas_loop
  set_broker_replicas master replicas =
      Client.set_broker_replicas o master replicas >> set_replicas_loop replicas

  -- An error other than the one that asks for a retry is logged, and the loop goes on.
  unfoldable pub register_server_proxies : Bytes → List ServerProxyMeta → Io E (Unit {0})
  register_server_proxies master [] = pure tt
  register_server_proxies master (p ∷ proxies) =
      let rest = register_server_proxies master proxies in
      handle (Client.register_server_proxy o master p) (λ _. rest)
        (λ e. if is_retry e then raise e else rest)

  unfoldable pub deregister_loop : Bytes → List Bytes → Io E (Unit {0})
  deregister_loop master [] = pure tt
  deregister_loop master (a ∷ addrs) =
      let rest = deregister_loop master addrs in
      handle (Client.deregister_server_proxy o master a) (λ _. rest)
        (λ e. if is_retry e then raise e else rest)

  unfoldable pub deregister_server_proxies :
      Bytes → List ServerProxyMeta → Undermoon → Io E (Unit {0})
  unfolding deregister_loop delete_list keep_set
  deregister_server_proxies master proxies cr = Client.get_server_proxies o master >>= λ existing.
      deregister_loop master (delete_list (keep_set cr proxies) existing)

  unfoldable pub reconcile_server_proxy_registry :
      Bytes → List ServerProxyMeta → Undermoon → Io E (Unit {0})
  unfolding register_server_proxies deregister_server_proxies
  reconcile_server_proxy_registry master proxies cr =
      register_server_proxies master proxies >> deregister_server_proxies master proxies cr

  unfoldable pub create_cluster : Bytes → Undermoon → Io E (Unit {0})
  create_cluster master cr = Client.cluster_exists o master cr.spec.cluster_name >>= λ exists.
      if exists
      then pure tt
      else Client.create_cluster o master cr.spec.cluster_name cr.spec.chunk_number

  unfoldable pub change_cluster_config : Bytes → Undermoon → Io E (Unit {0})
  unfolding running_to_retry
  change_cluster_config master cr =
      handle
        (Client.change_cluster_config o master cr.spec.cluster_name cr.spec.migration_scan_interval
          cr.spec.migration_scan_count)
        pure (λ e. raise (running_to_retry e))

  -- The second half of `changeNodeNumber`; `retry` says that the first met free nodes.
  remove_nodes : Bytes → Undermoon → Bool → Io E (Unit {0})
  unfolding running_to_retry
  remove_nodes master cr retry =
      handle (Client.remove_free_nodes o master cr.spec.cluster_name)
        (λ _. if retry then raise retry_reconciliation else pure tt)
        (λ e. raise (running_to_retry e))

  after_scale_error : Bytes → Undermoon → Option Error → Io E (Unit {0})
  unfolding remove_nodes
  after_scale_error master cr none = remove_nodes master cr true
  after_scale_error master cr (some e) = raise e

  unfoldable pub change_node_number : Bytes → Undermoon → Io E (Unit {0})
  unfolding after_scale_error remove_nodes scale_error
  change_node_number master cr =
      handle (Client.scale_nodes o master cr.spec.cluster_name cr.spec.chunk_number)
        (λ _. remove_nodes master cr false) (λ e. after_scale_error master cr (scale_error e))

  unfoldable pub change_meta : Bytes → Undermoon → ClusterInfo → Io E (Unit {0})
  unfolding change_node_number running_to_retry
  change_meta master cr info =
      if info.is_migrating
      then raise retry_reconciliation
      else handle (change_node_number master cr) pure (λ e. raise (running_to_retry e))

  -- The part of `reconcileMeta` that waits for the storage.
  when_storage_ready : Bytes → Undermoon → Bool → Io E ClusterInfo
  unfolding create_cluster change_cluster_config
  when_storage_ready master cr storage_all_ready =
      if not storage_all_ready
      then raise retry_reconciliation
      else (create_cluster master cr
          >> (change_cluster_config master cr
              >> Client.get_cluster_info o master cr.spec.cluster_name))

  unfoldable pub reconcile_meta :
      Bytes → List Bytes → List ServerProxyMeta → Undermoon → Bool → Io E ClusterInfo
  unfolding set_broker_replicas reconcile_server_proxy_registry when_storage_ready
  reconcile_meta master replicas proxies cr storage_all_ready =
      set_broker_replicas master replicas
      >> (reconcile_server_proxy_registry master proxies cr
          >> when_storage_ready master cr storage_all_ready)
