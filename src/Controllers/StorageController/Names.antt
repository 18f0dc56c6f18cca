-- ===== src/Controllers/StorageController/Names.antt =====
-- controllers/storage.go and storage_controller.go: the names of the pods and what is read off them.
use undermoon_operator.Prelude.{
  ℕ, ◌^◌, ◌<◌, ◌≡◌, refl, ap, ◌∙◌, arith, Bytes, dec, dec-no-byte, parse_int, parse_int-dec,
  after_last, after_last-append, value,
}
use undermoon_operator.Controllers.Types.{Undermoon}
use undermoon_operator.Controllers.Storage.{
  storage_stateful_set_pod_name, storage_stateful_set_name, gen_storage_address_from_name,
}
use undermoon_operator.Controllers.BrokerClient.{new_server_proxy_meta}
use undermoon_operator.Controllers.StorageController.{proxy_index, server_proxy_of}

-- The index that is read off the name of a pod of the StatefulSet is the index of the pod.
pub pod_name_index :
    (name : Bytes) (i : ℕ)
    → i < 2 ^ 63
    → parse_int (after_last b'-' (storage_stateful_set_pod_name name i)) ≡ value i
unfolding storage_stateful_set_pod_name
pod_name_index name i h =
    ap parse_int (
      after_last-append b'-' (storage_stateful_set_name name) (dec i)
        (dec-no-byte b'-' i (omega arith)))
    ∙ parse_int-dec i h

-- For an index below 2^63, the proxy that is found as the pod of that index is registered under
-- the very address that the pod has in the list of addresses to keep, with its own index.
pub server_proxy_of-pod_name :
    (cr : Undermoon) (i : ℕ)
    → i < 2 ^ 63
    → let pod : Bytes = storage_stateful_set_pod_name cr.name i in
      ((server_proxy_of cr pod).proxy_address ≡ gen_storage_address_from_name pod cr)
      × ((server_proxy_of cr pod).index ≡ i)
unfolding server_proxy_of new_server_proxy_meta gen_storage_address_from_name
server_proxy_of-pod_name cr i h = (refl, ap proxy_index (pod_name_index cr.name i h))
