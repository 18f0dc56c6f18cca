-- ===== src/Controllers/StorageController.antt =====
-- controllers/storage_controller.go: creating, scaling and updating the storage pods.
pub mod Sends
pub mod ScaleDown
pub mod Names
use undermoon_operator.Prelude.{
  ℕ, zero, suc, ◌+◌, ◌*◌, ◌%◌, ◌^◌, Option, none, some, List, [], ◌∷◌, ◌++◌, Bytes, codes, bytes_eq,
  dec, Bool, true, false, not, ◌&&◌, ◌||◌, if◌then◌else◌, ltb, leb, ◌==◌, length, after_last,
  parse_int, Parsed, value, bad_syntax, out_of_range, ◌-◌,
}
use undermoon_operator.Controllers.Types.{Opaque, Undermoon, StatefulSet, Service}
use undermoon_operator.Controllers.Io.{
  Io, Outside, Result, ok, err, Error, retry_reconciliation, failure, panic, is_retry, ClusterInfo,
  ServerProxyMeta, pure, raise, handle, ask, request, lift, ◌>>=◌, ◌>>◌, updated_stateful_set,
  updated_status,
}
use undermoon_operator.Controllers.Utils.{
  to_int32, int32_lt, int32_le_int, chunk_node_number, chunk_shard_number,
}
use undermoon_operator.Controllers.Storage.{
  create_storage_service, create_storage_public_service, create_storage_stateful_set,
  storage_stateful_set_changed, gen_storage_fqdn_from_name,
}
use undermoon_operator.Controllers.BrokerClient.{new_server_proxy_meta}
use undermoon_operator.Controllers.Resources.{
  is_conflict, is_not_found, ensure_service, ensure_stateful_set,
}

abbrev pub scale_state_stable : Bytes
scale_state_stable = codes "Stable"

abbrev pub scale_state_scale_down_wait : Bytes
scale_state_scale_down_wait = codes "ScaleDownWait"

-- Thirty seconds in nanoseconds.
abbrev pub scale_down_wait_time : ℕ
scale_down_wait_time = 30000000000

-- `len(ResourceVersion) == 0`
unfoldable pub is_empty : Bytes → Bool
is_empty [] = true
is_empty (x ∷ xs) = false

unfoldable pub conflict_to_retry : Error → Error
unfolding is_conflict
conflict_to_retry e = if is_conflict e then retry_reconciliation else e

abbrev pub shard_replicas : Undermoon → ℕ
shard_replicas cr = to_int32 (cr.spec.chunk_number * chunk_shard_number)

unfoldable pub concat_subsets : List (List Bytes) → List Bytes
concat_subsets [] = []
concat_subsets (s ∷ subsets) = s ++ concat_subsets subsets

-- The index that `getServerProxies` goes on with: an error of `ParseInt` is only logged.
unfoldable pub proxy_index : Parsed → ℕ
proxy_index (value n) = n
proxy_index bad_syntax = 0
proxy_index out_of_range = 2 ^ 63 - 1

unfoldable pub server_proxy_of : Undermoon → Bytes → ServerProxyMeta
unfolding proxy_index
server_proxy_of cr hostname =
    let address : Bytes = gen_storage_fqdn_from_name hostname cr in
    new_server_proxy_meta address address cr.spec.port
      (proxy_index (parse_int (after_last b'-' hostname)))

unfoldable pub server_proxies_of : Undermoon → List Bytes → List ServerProxyMeta
unfolding server_proxy_of
server_proxies_of cr [] = []
server_proxies_of cr (h ∷ hostnames) = server_proxy_of cr h ∷ server_proxies_of cr hostnames

module _ {E : Type 0} (o : Outside E) where
  -- `getEndpoints` of utils.go: the host names, none where there is no such object.
  unfoldable pub get_endpoints : Service → Io E (List Bytes)
  unfolding concat_subsets
  get_endpoints svc =
      handle (ask (o.get_subsets svc.namespace svc.name)) (λ subsets. pure (concat_subsets subsets))
        (λ e. if is_not_found e then pure [] else raise e)

  unfoldable pub update_storage_stateful_set : Undermoon → StatefulSet → Io E StatefulSet
  unfolding is_empty conflict_to_retry
  update_storage_stateful_set cr storage =
      let storage' : StatefulSet = record storage {
        spec = record storage.spec { replicas = shard_replicas cr };
      } in
      if is_empty storage.resource_version
      then raise failure
      else handle (request (updated_stateful_set storage') (o.update_stateful_set storage')) pure
          (λ e. raise (conflict_to_retry e))

  -- `createStorage`; it only ever raises the number of replicas.
  unfoldable pub create_storage : Undermoon → Io E (StatefulSet × Service × Undermoon)
  unfolding update_storage_stateful_set
  create_storage cr = ensure_service o create_storage_public_service cr >>= λ public.
      ensure_service o create_storage_service public.1 >>= λ service.
      ensure_stateful_set o create_storage_stateful_set service.1 >>= λ s.
      if int32_lt s.0.spec.replicas (to_int32 (to_int32 s.1.spec.chunk_number * 2))
      then (update_storage_stateful_set s.1 s.0 >>= λ storage. pure (storage, service.0, s.1))
      else pure (s.0, service.0, s.1)

  unfoldable pub wait_timestamp : Bytes → Io E ℕ
  wait_timestamp state = if bytes_eq state scale_state_scale_down_wait then ask o.now else pure 0

  -- `setScaleState`; a successful update leaves the server's reply in the custom resource.
  unfoldable pub set_scale_state : Undermoon → Bytes → Io E Undermoon
  unfolding wait_timestamp conflict_to_retry
  set_scale_state cr state = wait_timestamp state >>= λ t.
      let cr' : Undermoon = record cr {
        status = record cr.status { scale_state = state; scale_down_wait_timestamp = t };
      } in
      handle (request (updated_status cr') (o.update_status cr')) pure
        (λ e. raise (conflict_to_retry e))

  -- The update at the end of `scaleDownStorageStatefulSet`.
  unfoldable pub finish_scale_down : Undermoon → StatefulSet → Io E (Undermoon × StatefulSet)
  unfolding update_storage_stateful_set set_scale_state
  finish_scale_down cr storage = update_storage_stateful_set cr storage >>= λ storage'.
      set_scale_state cr scale_state_stable >>= λ cr'. pure (cr', storage')

  -- From the test of the scale state on.
  unfoldable pub wait_and_scale_down : Undermoon → StatefulSet → Io E (Undermoon × StatefulSet)
  unfolding finish_scale_down set_scale_state
  wait_and_scale_down cr storage =
      if not (bytes_eq cr.status.scale_state scale_state_scale_down_wait)
      then (set_scale_state cr scale_state_scale_down_wait >>= λ _. raise retry_reconciliation)
      else (ask o.now >>= λ now.
          if ltb now (cr.status.scale_down_wait_timestamp + scale_down_wait_time)
          then raise retry_reconciliation
          else finish_scale_down cr storage)

  unfoldable pub scale_down_storage_stateful_set :
      Undermoon → StatefulSet → ClusterInfo → Io E (Undermoon × StatefulSet)
  unfolding wait_and_scale_down
  scale_down_storage_stateful_set cr storage info =
      let expected : ℕ = cr.spec.chunk_number * chunk_node_number in
      if ltb expected info.node_number_with_slots
      then raise retry_reconciliation
      else if ltb info.node_number_with_slots expected
      then raise retry_reconciliation
      else if storage.spec.replicas == shard_replicas cr
      then pure (cr, storage)
      else wait_and_scale_down cr storage

  unfoldable pub storage_all_ready : Service → Undermoon → Io E Bool
  unfolding get_endpoints
  storage_all_ready svc cr =
      get_endpoints svc >>= λ hosts. pure (int32_le_int (shard_replicas cr) (length hosts))

  unfoldable pub storage_all_ready_and_stable : Service → StatefulSet → Undermoon → Io E Bool
  unfolding storage_all_ready
  storage_all_ready_and_stable svc storage cr = storage_all_ready svc cr >>= λ ready. pure (
      if not ready
      then false
      else if not (storage.status.current_replicas == storage.spec.replicas)
      then false
      else if not (storage.status.replicas == storage.spec.replicas)
      then false
      else true)

  unfoldable pub get_server_proxies : Service → Undermoon → Io E (List ServerProxyMeta)
  unfolding get_endpoints server_proxies_of
  get_server_proxies svc cr = get_endpoints svc >>= λ hosts. pure (server_proxies_of cr hosts)

  -- `updateStatefulSetHelper`: the StatefulSet with the specification of the manifest. Building the
  -- manifest may change the custom resource.
  unfoldable pub update_stateful_set_helper :
      (Undermoon → StatefulSet × Undermoon)
      → Undermoon
      → StatefulSet
      → Io E (StatefulSet × Undermoon)
  unfolding is_empty conflict_to_retry
  update_stateful_set_helper build cr s =
      let (built, cr') = build cr in
      let s' : StatefulSet = record s { spec = built.spec } in
      if is_empty s.resource_version
      then raise failure
      else handle (request (updated_stateful_set s') (o.update_stateful_set s'))
          (λ updated. pure (updated, cr')) (λ e. raise (conflict_to_retry e))

  unfoldable pub trigger_storage_rolling_update :
      Undermoon → StatefulSet → Service → Io E (Unit {0})
  unfolding update_stateful_set_helper storage_all_ready
  trigger_storage_rolling_update cr storage svc =
      update_stateful_set_helper create_storage_stateful_set cr storage >>= λ s.
      storage_all_ready svc s.1 >>= λ ready.
      if not ready then raise retry_reconciliation else pure tt
