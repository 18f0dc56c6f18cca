-- ===== src/Controllers/Io.antt =====
-- What controllers/ asks of the outside: the Kubernetes API server, the brokers' HTTP interface, the
-- coordinators' Redis interface, the clock. All are parameters; the requests that can change
-- something are logged.
pub mod Keeps
pub mod Returns
use undermoon_operator.Prelude.{ℕ, Option, none, some, List, [], ◌∷◌, Bytes, Bool, true, false}
use undermoon_operator.Controllers.Types.{Undermoon, StatefulSet, Service, ConfigMap, Secret}

-- What `errors.IsNotFound` and its kin tell apart.
pub data KubeError : Type 0 where
  not_found already_exists conflict other_kube : KubeError

-- The sentinel errors of the program; `failure` is any error made by `Errorf`, without its text.
pub data Error : Type 0 where
  retry_reconciliation migration_running free_node_found external_timeout : Error
  proxy_resource_out_of_order external_store_conflict failure panic : Error
  kube : KubeError → Error

pub data Result {ℓ} (A : Type ℓ) : Type ℓ where
  ok : A → Result A
  err : Error → Result A

-- `err == errRetryReconciliation` and the like.
unfoldable pub is_retry : Error → Bool
is_retry retry_reconciliation = true
is_retry _ = false

-- `serverProxyMeta`
pub record ServerProxyMeta : Type 0 where
  pub proxy_address : Bytes
  pub redis_address1 : Bytes
  pub redis_address2 : Bytes
  pub host : Bytes
  pub index : ℕ

-- `clusterInfo`
pub record ClusterInfo : Type 0 where
  pub name : Bytes
  pub node_number : ℕ
  pub node_number_with_slots : ℕ
  pub is_migrating : Bool

-- The requests of the broker's client: the address, then what the path and the body hold.
pub data HttpRequest : Type 0 where
  get_config get_epoch get_proxies get_names : Bytes → HttpRequest
  put_config : Bytes → List Bytes → HttpRequest
  post_proxy : Bytes → ServerProxyMeta → HttpRequest
  delete_proxy : Bytes → Bytes → HttpRequest
  post_cluster : Bytes → Bytes → ℕ → HttpRequest
  post_scale : Bytes → Bytes → ℕ → HttpRequest
  delete_free_nodes : Bytes → Bytes → HttpRequest
  get_info : Bytes → Bytes → HttpRequest
  patch_config : Bytes → Bytes → ℕ → ℕ → HttpRequest

-- A decoded result body.
pub data Payload : Type 0 where
  addresses : List Bytes → Payload
  epoch : Option ℕ → Payload
  info : ClusterInfo → Payload
  nothing : Payload

-- A reply: `error_code` is `none` where the error body is not an `errorResponse`.
pub record HttpResponse : Type 0 where
  pub status : ℕ
  pub error_code : Option Bytes
  pub payload : Payload

pub record Outside (E : Type 0) : Type 0 where
  pub get_undermoon : Bytes → Bytes → E → Result Undermoon × E
  pub get_stateful_set : Bytes → Bytes → E → Result StatefulSet × E
  pub create_stateful_set : StatefulSet → E → Result StatefulSet × E
  pub update_stateful_set : StatefulSet → E → Result StatefulSet × E
  pub get_service : Bytes → Bytes → E → Result Service × E
  pub create_service : Service → E → Result Service × E
  pub get_config_map : Bytes → Bytes → E → Result ConfigMap × E
  pub create_config_map : ConfigMap → E → Result ConfigMap × E
  pub update_config_map : ConfigMap → E → Result ConfigMap × E
  pub get_secret : Bytes → Bytes → E → Result Secret × E
  pub create_secret : Secret → E → Result Secret × E
  pub get_subsets : Bytes → Bytes → E → Result (List (List Bytes)) × E
  pub update_status : Undermoon → E → Result Undermoon × E
  pub patch_status : Undermoon → Bytes → E → Result Undermoon × E
  pub set_controller_reference : Undermoon → Bytes → E → Result (Unit {0}) × E
  pub http : HttpRequest → E → Result HttpResponse × E
  pub set_brokers : Bytes → Bytes → E → Result (Unit {0}) × E
  pub now : E → Result ℕ × E
  pub password : E → Result Bytes × E

-- A request that was sent.
pub data Event : Type 0 where
  created_stateful_set updated_stateful_set : StatefulSet → Event
  created_service : Service → Event
  created_config_map updated_config_map : ConfigMap → Event
  created_secret : Secret → Event
  updated_status : Undermoon → Event
  patched_status : Bytes → Event
  sent : HttpRequest → Event
  configured : Bytes → Bytes → Event

-- `log` has the newest event first.
pub record World (E : Type 0) : Type 0 where
  pub env : E
  pub log : List Event

abbrev pub Io : Type 0 → Type 0 → Type 0
Io E A = World E → Result A × World E

module _ {E : Type 0} where
  -- A request that changes nothing outside.
  pub ask : {A : Type 0} → (E → Result A × E) → Io E A
  ask f w = let (r, e) = f w.env in (r, record w { env = e })

  pub request : {A : Type 0} → Event → (E → Result A × E) → Io E A
  request ev f w = let (r, e) = f w.env in (r, record { env = e; log = ev ∷ w.log })

  pub pure : {A : Type 0} → A → Io E A
  pure a w = (ok a, w)

  pub raise : {A : Type 0} → Error → Io E A
  raise e w = (err e, w)

  pub lift : {A : Type 0} → Result A → Io E A
  lift r w = (r, w)

  abbrev pub continue : {A B : Type 0} → Result A → (A → Io E B) → (Error → Io E B) → Io E B
  continue (ok a) f g = f a
  continue (err e) f g = g e

  -- `r, err := m; if err != nil { g err }; f r`
  pub handle : {A B : Type 0} → Io E A → (A → Io E B) → (Error → Io E B) → Io E B
  handle m f g w = let (r, w') = m w in continue r f g w'

  infixl 5 ◌>>=◌ ◌>>◌
  unfoldable pub ◌>>=◌ : {A B : Type 0} → Io E A → (A → Io E B) → Io E B
  unfolding handle raise pure ask request lift
  ◌>>=◌ m f = handle m f raise

  unfoldable pub ◌>>◌ : {A B : Type 0} → Io E A → Io E B → Io E B
  unfolding ◌>>=◌
  ◌>>◌ m n = m >>= λ _. n
