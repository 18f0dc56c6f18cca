-- ===== src/Controllers/Utils.antt =====
-- The helpers of controllers/utils.go and the names of controllers/meta.go.
pub mod Equality
pub mod Laws
pub mod Defaults
use undermoon_operator.Prelude.{
  ℕ, ◌+◌, ◌-◌, ◌*◌, ◌%◌, ◌^◌, Option, none, some, List, [], ◌∷◌, ◌++◌, Bytes, codes, bytes_eq, Bool,
  true, false, not, ◌&&◌, ◌||◌, if◌then◌else◌, leb, ltb, ◌==◌, length, drop, take, has_byte,
}
use undermoon_operator.Controllers.Types.{
  Opaque, Labels, EnvVar, EnvVarSource, ObjectFieldSelector, ResourceFieldSelector, KeySelector,
  ResourceList, ResourceRequirements, PodAffinityTerm, PodAntiAffinity, Affinity, Word,
}

abbrev pub chunk_node_number : ℕ
chunk_node_number = 4

abbrev pub chunk_shard_number : ℕ
chunk_shard_number = 2

-- `int32(n)`, as a bit pattern.
abbrev pub to_int32 : ℕ → ℕ
to_int32 n = n % 2 ^ 32

-- `a < b` of two `int32` bit patterns: the sign bit comes first.
unfoldable pub int32_lt : ℕ → ℕ → Bool
int32_lt a b = ltb ((a + 2 ^ 31) % 2 ^ 32) ((b + 2 ^ 31) % 2 ^ 32)

-- `n >= int(p)` of an `int32` bit pattern and a number that is not negative.
unfoldable pub int32_le_int : ℕ → ℕ → Bool
int32_le_int p n = if ltb p (2 ^ 31) then leb p n else true

abbrev pub text_var : Bytes → Bytes → EnvVar
text_var name value = record { name = name; value = value; value_from = none }

-- `&corev1.EnvVarSource{FieldRef: &corev1.ObjectFieldSelector{FieldPath: path}}`
abbrev pub from_field : Bytes → EnvVarSource
from_field path = record {
  field_ref = some (record { api_version = []; field_path = path });
  resource_field_ref = none;
  config_map_key_ref = none;
  secret_key_ref = none;
}

-- `&corev1.EnvVarSource{SecretKeyRef: &corev1.SecretKeySelector{...}}`
abbrev pub from_secret : Bytes → Bytes → EnvVarSource
from_secret name key = record {
  field_ref = none;
  resource_field_ref = none;
  config_map_key_ref = none;
  secret_key_ref = some (record { name = name; key = key; optional = none });
}

unfoldable pub pod_ip_env : EnvVar
pod_ip_env = record {
  name = codes "UM_POD_IP";
  value = [];
  value_from = some (from_field (codes "status.podIP"));
}

unfoldable pub pod_name_env : EnvVar
pod_name_env = record {
  name = codes "UM_POD_NAME";
  value = [];
  value_from = some (from_field (codes "metadata.name"));
}

-- `getEnvValue`
unfoldable pub get_env_value : List EnvVar → Bytes → Bytes
get_env_value [] name = []
get_env_value (e ∷ envs) name = if bytes_eq e.name name then e.value else get_env_value envs name

-- `addAntiAffinity`. The copy `*affinity = *crAffinity` is shallow: the custom resource's
-- `PodAntiAffinity`, if it has one, is the very object that the term is appended to. The second
-- part is what the custom resource holds afterwards. The manifest points to that object too, so that
-- a later append shows in it; the first part is the value at the time when it is built. This is the
-- value of every request: a manifest is sent before the next one is built, and a StatefulSet that
-- is kept for later gets the spec of a new manifest before it is updated, except that an update of
-- the storage's replicas sends the storage's own manifest, the last one that was built.
unfoldable pub shared_affinity :
    Affinity → PodAffinityTerm → Option PodAntiAffinity → Affinity × Option Affinity
shared_affinity a term none =
    (record a { pod_anti_affinity = some (record { required = 0; preferred = term ∷ [] }) }, some a)
shared_affinity a term (some p) =
    let a' : Affinity = record a {
      pod_anti_affinity = some (record p { preferred = p.preferred ++ term ∷ [] });
    } in
    (a', some a')

abbrev pub empty_affinity : Affinity
empty_affinity = record { node_affinity = 0; pod_affinity = 0; pod_anti_affinity = none }

unfoldable pub affinity_term : Labels → Bytes → Bytes → PodAffinityTerm
affinity_term labels namespace topology_key = record {
  weight = 2;
  match_labels = labels;
  namespaces = namespace ∷ [];
  topology_key = topology_key;
}

unfoldable pub add_anti_affinity :
    Option Affinity → Labels → Bytes → Bytes → Affinity × Option Affinity
unfolding shared_affinity affinity_term
add_anti_affinity none labels namespace topology_key =
    ((shared_affinity empty_affinity (affinity_term labels namespace topology_key) none).0, none)
add_anti_affinity (some a) labels namespace topology_key =
    shared_affinity a (affinity_term labels namespace topology_key) a.pod_anti_affinity

-- `rhs[resourceName]`
unfoldable pub get_resource : ResourceList → Bytes → Option Opaque
get_resource [] name = none
get_resource ((k, q) ∷ l) name = if bytes_eq k name then some q else get_resource l name

-- `Quantity.Equal` is Kubernetes code, hence a parameter.
module _ (quantity_equal : Opaque → Opaque → Bool) where
  entry_equal : Opaque → Option Opaque → Bool
  entry_equal q none = false
  entry_equal q (some r) = quantity_equal q r

  -- The loop of `resourceListEqual`.
  unfoldable pub entries_equal : ResourceList → ResourceList → Bool
  unfolding entry_equal get_resource
  entries_equal [] rhs = true
  entries_equal ((k, q) ∷ lhs) rhs = entry_equal q (get_resource rhs k) && entries_equal lhs rhs

  unfoldable pub resource_list_equal : ResourceList → ResourceList → Bool
  unfolding entries_equal
  resource_list_equal lhs rhs =
      if not (length lhs == length rhs) then false else entries_equal lhs rhs

  unfoldable pub resource_requirements_equal : ResourceRequirements → ResourceRequirements → Bool
  unfolding resource_list_equal
  resource_requirements_equal lhs rhs =
      if not (resource_list_equal lhs.limits rhs.limits)
      then false
      else if not (resource_list_equal lhs.requests rhs.requests)
      then false
      else true

-- `reflect.DeepEqual` on two pointers: two nil ones, or two whose values are equal.
unfoldable pub option_eq {ℓ} : {A : Type ℓ} → (A → A → Bool) → Option A → Option A → Bool
option_eq eq none none = true
option_eq eq (some a) (some b) = eq a b
option_eq eq _ _ = false

unfoldable pub bool_eq : Bool → Bool → Bool
bool_eq a b = if a then b else not b

unfoldable pub object_field_eq : ObjectFieldSelector → ObjectFieldSelector → Bool
object_field_eq a b = bytes_eq a.api_version b.api_version && bytes_eq a.field_path b.field_path

unfoldable pub resource_field_eq : ResourceFieldSelector → ResourceFieldSelector → Bool
resource_field_eq a b =
    bytes_eq a.container_name b.container_name
    && (bytes_eq a.resource b.resource && (a.divisor == b.divisor))

unfoldable pub key_eq : KeySelector → KeySelector → Bool
unfolding option_eq bool_eq
key_eq a b =
    bytes_eq a.name b.name && (bytes_eq a.key b.key && option_eq bool_eq a.optional b.optional)

-- `reflect.DeepEqual` on the sources of two variables.
unfoldable pub source_eq : EnvVarSource → EnvVarSource → Bool
unfolding option_eq object_field_eq resource_field_eq key_eq
source_eq a b =
    option_eq object_field_eq a.field_ref b.field_ref
    && (option_eq resource_field_eq a.resource_field_ref b.resource_field_ref
        && (option_eq key_eq a.config_map_key_ref b.config_map_key_ref
            && option_eq key_eq a.secret_key_ref b.secret_key_ref))

-- `reflect.DeepEqual` on two entries.

unfoldable pub env_var_eq : EnvVar → EnvVar → Bool
unfolding option_eq source_eq
env_var_eq a b =
    bytes_eq a.name b.name
    && (bytes_eq a.value b.value && option_eq source_eq a.value_from b.value_from)

-- `oldMap`: the entry of a name is the last one that the list has for it.
unfoldable pub last_of_name : List EnvVar → Bytes → Option EnvVar
last_of_name [] name = none
last_of_name (e ∷ envs) name = elim (last_of_name envs name) [
  | some f ↦ some f
  | none ↦ if bytes_eq e.name name then some e else none
]

var_changed : Option EnvVar → EnvVar → Bool
var_changed none new_var = true
var_changed (some old_var) new_var = not (env_var_eq old_var new_var)

unfoldable pub env_var_list_need_update : List EnvVar → List EnvVar → Bool
unfolding var_changed last_of_name
env_var_list_need_update old [] = false
env_var_list_need_update old (v ∷ new) =
    var_changed (last_of_name old v.name) v || env_var_list_need_update old new

abbrev pub gen_pre_stop_hook_life_cycle : List Word → Option (List Word)
gen_pre_stop_hook_life_cycle cmd = some cmd
