-- ===== src/Controllers/BrokerClient/Replies.antt =====
-- controllers/broker_client.go: what each reply of a broker means.
use undermoon_operator.Prelude.{
  ℕ, none, some, List, [], ◌∷◌, ◌++◌, Bytes, codes, bytes_eq, dec, Bool, true, false, not, ◌&&◌,
  ◌||◌, if◌then◌else◌, ◌==◌,
}
use undermoon_operator.Controllers.Io.{
  Result, ok, err, retry_reconciliation, migration_running, free_node_found, external_timeout,
  proxy_resource_out_of_order, failure, panic, ServerProxyMeta, ClusterInfo, HttpResponse, Payload,
  addresses, epoch, info,
}

-- `ok && response.Error == code`
unfoldable pub code_is : HttpResponse → Bytes → Bool
code_is r code = elim r.error_code [ none ↦ false | some c ↦ bytes_eq c code ]

unfoldable pub timed_out : HttpResponse → Bool
unfolding code_is
timed_out r = r.status == 504 && code_is r (codes "EXTERNAL_TIMEOUT")

unfoldable pub retry_asked : HttpResponse → Bool
unfolding code_is
retry_asked r = r.status == 409 && code_is r (codes "RETRY")

-- `newServerProxyMeta`
unfoldable pub new_server_proxy_meta : Bytes → Bytes → ℕ → ℕ → ServerProxyMeta
new_server_proxy_meta pod_host node_ip port index = record {
  proxy_address = pod_host ++ (codes ":" ++ dec port);
  redis_address1 = pod_host ++ (codes ":" ++ dec 7001);
  redis_address2 = pod_host ++ (codes ":" ++ dec 7002);
  host = node_ip;
  index = index;
}

config_payload : Payload → Result (List Bytes)
config_payload (addresses l) = ok l
config_payload _ = err failure

unfoldable pub replica_addresses_reply : HttpResponse → Result (List Bytes)
unfolding timed_out config_payload
replica_addresses_reply r =
    if timed_out r
    then err external_timeout
    else if not (r.status == 200)
    then err failure
    else config_payload r.payload

epoch_payload : Payload → Result ℕ
epoch_payload (epoch (some n)) = ok n
epoch_payload _ = err failure

unfoldable pub epoch_reply : HttpResponse → Result ℕ
unfolding timed_out epoch_payload
epoch_reply r =
    if timed_out r
    then err external_timeout
    else if not (r.status == 200)
    then err failure
    else epoch_payload r.payload

-- The type assertion of `getServerProxies` has no second result: it panics.
proxies_payload : Payload → Result (List Bytes)
proxies_payload (addresses l) = ok l
proxies_payload _ = err panic

unfoldable pub server_proxies_reply : HttpResponse → Result (List Bytes)
unfolding timed_out proxies_payload
server_proxies_reply r =
    if timed_out r
    then err external_timeout
    else if not (r.status == 200)
    then err failure
    else proxies_payload r.payload

unfoldable pub set_broker_replicas_reply : HttpResponse → Result (Unit {0})
unfolding timed_out retry_asked
set_broker_replicas_reply r =
    if timed_out r
    then err external_timeout
    else if retry_asked r
    then err retry_reconciliation
    else if not (r.status == 200)
    then err failure
    else ok tt

unfoldable pub register_reply : HttpResponse → Result (Unit {0})
unfolding timed_out retry_asked
register_reply r =
    if timed_out r
    then err external_timeout
    else if retry_asked r
    then err retry_reconciliation
    else if not (r.status == 200) && not (r.status == 409)
    then err failure
    else ok tt

unfoldable pub deregister_reply : HttpResponse → Result (Unit {0})
unfolding timed_out retry_asked
deregister_reply r =
    if timed_out r
    then err external_timeout
    else if retry_asked r
    then err retry_reconciliation
    else if not (r.status == 200) && not (r.status == 404)
    then err failure
    else ok tt

unfoldable pub create_cluster_reply : HttpResponse → Result (Unit {0})
unfolding timed_out code_is
create_cluster_reply r =
    if r.status == 200
    then ok tt
    else if timed_out r
    then err external_timeout
    else if r.status == 409 && code_is r (codes "NO_AVAILABLE_RESOURCE")
    then err retry_reconciliation
    else if r.status == 409 && code_is r (codes "ALREADY_EXISTED")
    then ok tt
    else if r.status == 409 && code_is r (codes "RETRY")
    then err retry_reconciliation
    else err failure

unfoldable pub scale_nodes_reply : HttpResponse → Result (Unit {0})
unfolding timed_out code_is
scale_nodes_reply r =
    let refused : Bool = r.status == 409 || r.status == 400 in
    if r.status == 200
    then ok tt
    else if timed_out r
    then err external_timeout
    else if refused && code_is r (codes "MIGRATION_RUNNING")
    then err migration_running
    else if refused && code_is r (codes "FREE_NODE_FOUND")
    then err free_node_found
    else if refused && code_is r (codes "RETRY")
    then err retry_reconciliation
    else if refused && code_is r (codes "PROXY_RESOURCE_OUT_OF_ORDER")
    then err proxy_resource_out_of_order
    else err failure

unfoldable pub remove_free_nodes_reply : HttpResponse → Result (Unit {0})
unfolding timed_out code_is
remove_free_nodes_reply r =
    let refused : Bool = r.status == 404 || r.status == 409 in
    if r.status == 200
    then ok tt
    else if timed_out r
    then err external_timeout
    else if refused && code_is r (codes "MIGRATION_RUNNING")
    then err migration_running
    else if refused && code_is r (codes "FREE_NODE_NOT_FOUND")
    then ok tt
    else if refused && code_is r (codes "RETRY")
    then err retry_reconciliation
    else err failure

info_payload : Payload → Result ClusterInfo
info_payload (info i) = ok i
info_payload _ = err failure

-- A 404 is an error of its own text, which is not told apart here.
unfoldable pub cluster_info_reply : HttpResponse → Result ClusterInfo
unfolding timed_out info_payload
cluster_info_reply r =
    if r.status == 200
    then info_payload r.payload
    else if timed_out r
    then err external_timeout
    else err failure

unfoldable pub change_config_reply : HttpResponse → Result (Unit {0})
unfolding timed_out code_is
change_config_reply r =
    if r.status == 200
    then ok tt
    else if timed_out r
    then err external_timeout
    else if r.status == 404
    then err failure
    else if r.status == 409 && code_is r (codes "RETRY")
    then err retry_reconciliation
    else if r.status == 409 && code_is r (codes "MIGRATION_RUNNING")
    then err migration_running
    else err failure

-- The loop of `clusterExists` over the names.
unfoldable pub any_name : List Bytes → Bytes → Bool
any_name [] name = false
any_name (n ∷ names) name = if bytes_eq n name then true else any_name names name

names_payload : Bytes → Payload → Result Bool
unfolding any_name
names_payload name (addresses l) = ok (any_name l name)
names_payload name _ = err failure

unfoldable pub cluster_exists_reply : Bytes → HttpResponse → Result Bool
unfolding timed_out names_payload
cluster_exists_reply name r =
    if timed_out r
    then err external_timeout
    else if not (r.status == 200)
    then err failure
    else names_payload name r.payload
