-- ===== src/Controllers/Utils/Equality.antt =====
-- The comparisons of controllers/utils.go that stand for `reflect.DeepEqual` are equality.
use undermoon_operator.Prelude.{
  ◌≡◌, refl, ap, arith, Option, none, some, bytes_eq_self, eq_of_bytes_eq, Bool, true,
}
use undermoon_operator.Controllers.Types.{
  EnvVar, EnvVarSource, ObjectFieldSelector, ResourceFieldSelector, KeySelector,
}
use undermoon_operator.Controllers.Utils.{
  option_eq, bool_eq, object_field_eq, resource_field_eq, key_eq, source_eq, env_var_eq,
}

option_eq_self {ℓ} :
    {A : Type ℓ} (eq : A → A → Bool)
    → ((a : A) → eq a a ≡ true)
    → (s : Option A) → option_eq eq s s ≡ true
unfolding option_eq
option_eq_self eq h none = refl
option_eq_self eq h (some a) = h a

eq_of_option_eq {ℓ} :
    {A : Type ℓ} (eq : A → A → Bool)
    → ((a b : A) → eq a b ≡ true → a ≡ b)
    → (s t : Option A) → option_eq eq s t ≡ true
    → s ≡ t
unfolding option_eq
eq_of_option_eq eq h none none e = refl
eq_of_option_eq eq h none (some b) e = ground arith
eq_of_option_eq eq h (some a) none e = ground arith
eq_of_option_eq eq h (some a) (some b) e = ap some (h a b e)

bool_eq_self : (a : Bool) → bool_eq a a ≡ true
unfolding bool_eq
bool_eq_self a = ground arith

eq_of_bool_eq : (a b : Bool) → bool_eq a b ≡ true → a ≡ b
unfolding bool_eq
eq_of_bool_eq a b h = ground arith

object_field_eq_self : (a : ObjectFieldSelector) → object_field_eq a a ≡ true
unfolding object_field_eq
object_field_eq_self a = ground (arith, bytes_eq_self a.api_version, bytes_eq_self a.field_path)

eq_of_object_field_eq : (a b : ObjectFieldSelector) → object_field_eq a b ≡ true → a ≡ b
unfolding object_field_eq
eq_of_object_field_eq a b h =
    ground
      (arith, eq_of_bytes_eq a.api_version b.api_version, eq_of_bytes_eq a.field_path b.field_path)

resource_field_eq_self : (a : ResourceFieldSelector) → resource_field_eq a a ≡ true
unfolding resource_field_eq
resource_field_eq_self a = ground (arith, bytes_eq_self a.container_name, bytes_eq_self a.resource)

eq_of_resource_field_eq : (a b : ResourceFieldSelector) → resource_field_eq a b ≡ true → a ≡ b
unfolding resource_field_eq
eq_of_resource_field_eq a b h =
    ground (
      arith,
      eq_of_bytes_eq a.container_name b.container_name,
      eq_of_bytes_eq a.resource b.resource,
    )

key_eq_self : (a : KeySelector) → key_eq a a ≡ true
unfolding key_eq
key_eq_self a = ground (
  arith,
  bytes_eq_self a.name,
  bytes_eq_self a.key,
  option_eq_self bool_eq bool_eq_self a.optional,
)

eq_of_key_eq : (a b : KeySelector) → key_eq a b ≡ true → a ≡ b
unfolding key_eq
eq_of_key_eq a b h = ground (
  arith,
  eq_of_bytes_eq a.name b.name,
  eq_of_bytes_eq a.key b.key,
  eq_of_option_eq bool_eq eq_of_bool_eq a.optional b.optional,
)

source_eq_self : (s : EnvVarSource) → source_eq s s ≡ true
unfolding source_eq
source_eq_self s = ground (
  arith,
  option_eq_self object_field_eq object_field_eq_self s.field_ref,
  option_eq_self resource_field_eq resource_field_eq_self s.resource_field_ref,
  option_eq_self key_eq key_eq_self s.config_map_key_ref,
  option_eq_self key_eq key_eq_self s.secret_key_ref,
)

eq_of_source_eq : (s t : EnvVarSource) → source_eq s t ≡ true → s ≡ t
unfolding source_eq
eq_of_source_eq s t h = ground (
  arith,
  eq_of_option_eq object_field_eq eq_of_object_field_eq s.field_ref t.field_ref,
  eq_of_option_eq resource_field_eq eq_of_resource_field_eq s.resource_field_ref
      t.resource_field_ref,
  eq_of_option_eq key_eq eq_of_key_eq s.config_map_key_ref t.config_map_key_ref,
  eq_of_option_eq key_eq eq_of_key_eq s.secret_key_ref t.secret_key_ref,
)

pub env_var_eq_self : (v : EnvVar) → env_var_eq v v ≡ true
unfolding env_var_eq
env_var_eq_self v = ground (
  arith,
  bytes_eq_self v.name,
  bytes_eq_self v.value,
  option_eq_self source_eq source_eq_self v.value_from,
)

pub eq_of_env_var_eq : (v w : EnvVar) → env_var_eq v w ≡ true → v ≡ w
unfolding env_var_eq
eq_of_env_var_eq v w h = ground (
  arith,
  eq_of_bytes_eq v.name w.name,
  eq_of_bytes_eq v.value w.value,
  eq_of_option_eq source_eq eq_of_source_eq v.value_from w.value_from,
)
