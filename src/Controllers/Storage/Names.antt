-- ===== src/Controllers/Storage/Names.antt =====
-- controllers/storage.go: the services, the names of the pods, and their addresses.
use undermoon_operator.Prelude.{
  ℕ, zero, suc, ◌+◌, ◌*◌, List, [], ◌∷◌, ◌++◌, map, Bytes, codes, dec, true, false,
}
use undermoon_operator.Controllers.Types.{Undermoon, Service}
use undermoon_operator.Controllers.Utils.{to_int32, chunk_shard_number}
use undermoon_operator.Controllers.Broker.{object_labels}

unfoldable pub storage_service_name : Bytes → Bytes
storage_service_name name = name ++ codes "-stg-svc"

unfoldable pub storage_public_service_name : Bytes → Bytes
storage_public_service_name name = name

unfoldable pub storage_stateful_set_name : Bytes → Bytes
storage_stateful_set_name name = name ++ codes "-stg-ss"

unfoldable pub create_storage_service : Undermoon → Service
create_storage_service cr = record {
  name = storage_service_name cr.name;
  namespace = cr.namespace;
  labels = object_labels (codes "storage") cr;
  port_name = codes "server-proxy-port";
  port = to_int32 cr.spec.port;
  cluster_ip = codes "None";
  selector = object_labels (codes "storage") cr;
  publish_not_ready_addresses = true;
}

unfoldable pub create_storage_public_service : Undermoon → Service
create_storage_public_service cr = record {
  name = storage_public_service_name cr.name;
  namespace = cr.namespace;
  labels = object_labels (codes "storage") cr;
  port_name = codes "server-proxy-public-port";
  port = to_int32 cr.spec.port;
  cluster_ip = [];
  selector = object_labels (codes "storage") cr;
  publish_not_ready_addresses = false;
}

unfoldable pub storage_stateful_set_pod_name : Bytes → ℕ → Bytes
storage_stateful_set_pod_name name index =
    storage_stateful_set_name name ++ (codes "-" ++ dec index)

-- The loop of `genStorageNames` from index `i` on, with `n` rounds left.
names_from : Bytes → ℕ → ℕ → List Bytes
names_from name i zero = []
names_from name i (suc n) = storage_stateful_set_pod_name name i ∷ names_from name (i + 1) n

unfoldable pub gen_storage_names : Bytes → ℕ → List Bytes
unfolding names_from
gen_storage_names name replicas = names_from name 0 replicas

unfoldable pub gen_storage_fqdn : Bytes → Bytes → Bytes → Bytes
gen_storage_fqdn pod_name name namespace =
    pod_name
    ++ codes "."
    ++ storage_service_name name
    ++ codes "."
    ++ namespace
    ++ codes ".svc.cluster.local"

unfoldable pub gen_storage_fqdn_from_name : Bytes → Undermoon → Bytes
gen_storage_fqdn_from_name pod_name cr = gen_storage_fqdn pod_name cr.name cr.namespace

unfoldable pub gen_storage_address_from_name : Bytes → Undermoon → Bytes
gen_storage_address_from_name pod_name cr =
    gen_storage_fqdn_from_name pod_name cr ++ (codes ":" ++ dec cr.spec.port)

unfoldable pub gen_storage_stateful_set_addrs : Undermoon → List Bytes
gen_storage_stateful_set_addrs cr =
    map (λ pod_name. gen_storage_address_from_name pod_name cr)
      (gen_storage_names cr.name (cr.spec.chunk_number * chunk_shard_number))
