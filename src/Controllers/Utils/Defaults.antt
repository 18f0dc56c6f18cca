-- ===== src/Controllers/Utils/Defaults.antt =====
-- controllers/utils.go: what `envVarListNeedUpdate` makes of the defaults that the API server sets.
use undermoon_operator.Prelude.{
  ◌≡◌, ◌≢◌, ◌⊎◌, refl, arith, Option, none, some, List, [], ◌∷◌, ◌++◌, Bytes, inl, inr, true,
  Bool-cases,
}
use mathlib.Core.Path.{subst}
use undermoon_operator.Controllers.Types.{EnvVar, EnvVarSource, ObjectFieldSelector}
use undermoon_operator.Controllers.Utils.{from_field, last_of_name, env_var_list_need_update}
use undermoon_operator.Controllers.Utils.Laws.{All, need_update-false_iff}

-- A field of the pod is named with its API version. The API server sets this version in what it
-- stores, where a manifest leaves it out.
abbrev HasVersionedField : Option ObjectFieldSelector → Type 0
HasVersionedField none = Unit
HasVersionedField (some f) = f.api_version ≢ []

abbrev HasVersionedSource : Option EnvVarSource → Type 0
HasVersionedSource none = Unit
HasVersionedSource (some s) = HasVersionedField s.field_ref

abbrev pub IsDefaulted : EnvVar → Type 0
IsDefaulted v = HasVersionedSource v.value_from

last_of_name-cons :
    (e w : EnvVar) (old : List EnvVar) (name : Bytes)
    → last_of_name (e ∷ old) name ≡ some w
    → (e ≡ w) ⊎ (last_of_name old name ≡ some w)
unfolding last_of_name
last_of_name-cons e w old name h = ground (arith, h)

All-last_of_name :
    (old : List EnvVar) (name : Bytes) (w : EnvVar)
    → All IsDefaulted old
    → last_of_name old name ≡ some w
    → IsDefaulted w
unfolding last_of_name
All-last_of_name [] name w p h = ground (arith, h)
All-last_of_name (e ∷ old) name w p h = elim (last_of_name-cons e w old name h) [
  | inl q ↦ subst IsDefaulted q p.0
  | inr q ↦ All-last_of_name old name w p.1 q
]

-- The variable `name` with the field `path` of the pod, without an API version.
abbrev pub field_var : Bytes → Bytes → EnvVar
field_var name path = record { name = name; value = []; value_from = some (from_field path) }

-- If in the deployed list each variable that takes a field of the pod has an API version, and the
-- wanted list has a variable that takes a field of the pod without one, then `envVarListNeedUpdate`
-- answers yes, whatever else the two lists hold.
pub need_update-field_var :
    (old before rest : List EnvVar) (name path : Bytes)
    → All IsDefaulted old
    → env_var_list_need_update old (before ++ field_var name path ∷ rest) ≡ true
need_update-field_var old before rest name path h =
    elim (Bool-cases (env_var_list_need_update old (before ++ field_var name path ∷ rest))) [
      | inl yes_update ↦ yes_update
      | inr none_needed ↦ absurd (
          clash before
            ((need_update-false_iff old (before ++ field_var name path ∷ rest)).0 none_needed))
    ]
  where
    clash :
        (xs : List EnvVar)
        → All (λ v. last_of_name old v.name ≡ some v) (xs ++ field_var name path ∷ rest)
        → ⊥
    clash [] p = All-last_of_name old name (field_var name path) h p.0 refl
    clash (x ∷ xs) p = clash xs p.1
