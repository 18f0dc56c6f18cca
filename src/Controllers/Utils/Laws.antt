-- ===== src/Controllers/Utils/Laws.antt =====
-- What the comparisons of controllers/utils.go decide.
use undermoon_operator.Prelude.{
  ◌≡◌, ◌≢◌, ◌↔◌, inl, inr, refl, ap, sym, ◌∙◌, arith, Option, none, some, List, [], ◌∷◌, ◌++◌,
  Bytes, bytes_eq, bytes_eq_self, Bool, true, false, Bool-cases,
}
use undermoon_operator.Controllers.Types.{Opaque, EnvVar, ResourceList, ResourceRequirements}
use undermoon_operator.Controllers.Utils.{
  last_of_name, var_changed, env_var_list_need_update, entries_equal, resource_list_equal,
  resource_requirements_equal,
}
use undermoon_operator.Controllers.Utils.Equality.{env_var_eq_self, eq_of_env_var_eq}

-- A statement about every entry of a list.
abbrev pub All {ℓ κ} : {A : Type ℓ} → (A → Type κ) → List A → Type κ
All P [] = Unit
All P (x ∷ xs) = P x × All P xs

abbrev InForce : List EnvVar → EnvVar → Type 0
InForce old v = last_of_name old v.name ≡ some v

some_inj : (v w : EnvVar) → some v ≡ some w → v ≡ w
some_inj v w h = cc

var_changed_iff : (o : Option EnvVar) (v : EnvVar) → (var_changed o v ≡ false) ↔ (o ≡ some v)
unfolding var_changed
var_changed_iff none v = ground arith
var_changed_iff (some w) v = (
  λ h. ap some (eq_of_env_var_eq w v (ground arith)),
  λ h. rw (some_inj w v h) (ground (arith, env_var_eq_self v)),
)

-- `envVarListNeedUpdate` answers no exactly when every wanted variable is, value and source, the
-- one that the old list ends up with for its name.
pub need_update-false_iff :
    (old new : List EnvVar)
    → (env_var_list_need_update old new ≡ false) ↔ All (λ v. last_of_name old v.name ≡ some v) new
unfolding env_var_list_need_update
need_update-false_iff old [] = (λ h. tt, λ h. refl)
need_update-false_iff old (v ∷ new) = (
  λ h. (
    (var_changed_iff (last_of_name old v.name) v).0 (ground arith),
    (need_update-false_iff old new).0 (ground arith),
  ),
  λ h. ground (
    arith,
    (var_changed_iff (last_of_name old v.name) v).1 h.0,
    (need_update-false_iff old new).1 h.1,
  ),
)

-- What a list ends up with for a name is what its end has, if that has the name at all.
pub last_of_name-append :
    (xs ys : List EnvVar) (name : Bytes) {v : EnvVar}
    → last_of_name ys name ≡ some v
    → last_of_name (xs ++ ys) name ≡ some v
unfolding last_of_name
last_of_name-append [] ys name h = h
last_of_name-append (x ∷ xs) ys name h = ground (arith, last_of_name-append xs ys name h)

-- Every entry of the list is the one in force for its name: entries of one name are equal.
abbrev pub IsConsistent : List EnvVar → Type 0
IsConsistent user = All (λ v. last_of_name user v.name ≡ some v) user

All-map :
    (P Q : EnvVar → Type 0) (xs : List EnvVar) → ((v : EnvVar) → P v → Q v) → All P xs → All Q xs
All-map P Q [] f h = tt
All-map P Q (x ∷ xs) f h = (f x h.0, All-map P Q xs f h.1)

-- The environment that the manifests are built with, a base and then the user's variables, needs
-- no update if the user's variables are consistent.
pub need_update-built :
    (base user : List EnvVar)
    → IsConsistent user
    → env_var_list_need_update (base ++ user) user ≡ false
need_update-built base user h = (need_update-false_iff (base ++ user) user).1 (
    All-map (λ v. last_of_name user v.name ≡ some v)
      (λ v. last_of_name (base ++ user) v.name ≡ some v) user
      (λ v e. last_of_name-append base user v.name e) h)

-- If two neighbours of the wanted list have one name and differ, then whatever list is deployed,
-- `envVarListNeedUpdate` answers yes.
pub need_update_conflict :
    (old new rest : List EnvVar) (v w : EnvVar)
    → v.name ≡ w.name
    → v ≢ w
    → env_var_list_need_update old (new ++ v ∷ (w ∷ rest)) ≡ true
need_update_conflict old new rest v w same ne =
    elim (Bool-cases (env_var_list_need_update old (new ++ v ∷ (w ∷ rest)))) [
      | inl yes_update ↦ yes_update
      | inr none_needed ↦
          absurd (clash new ((need_update-false_iff old (new ++ v ∷ (w ∷ rest))).0 none_needed))
    ]
  where
    clash : (xs : List EnvVar) → All (InForce old) (xs ++ v ∷ (w ∷ rest)) → ⊥
    clash [] h = ne (some_inj v w (sym h.0 ∙ ap (last_of_name old) same ∙ h.1.0))
    clash (x ∷ xs) h = clash xs h.1

-- No name stands twice in a list, as in a Go map.
abbrev pub HasNoKey : Bytes → ResourceList → Type 0
HasNoKey k [] = Unit
HasNoKey k ((j, q) ∷ l) = (bytes_eq j k ≡ false) × (bytes_eq k j ≡ false) × HasNoKey k l

abbrev pub IsMap : ResourceList → Type 0
IsMap [] = Unit
IsMap ((k, q) ∷ l) = HasNoKey k l × IsMap l

module _ (quantity_equal : Opaque → Opaque → Bool)
    (reflexive : (q : Opaque) → quantity_equal q q ≡ true) where
  entries_equal-cons :
      (lhs rhs : ResourceList) (k : Bytes) (q : Opaque)
      → HasNoKey k lhs
      → entries_equal quantity_equal lhs ((k, q) ∷ rhs) ≡ entries_equal quantity_equal lhs rhs
  unfolding entries_equal
  entries_equal-cons [] rhs k q h = refl
  entries_equal-cons ((j, r) ∷ lhs) rhs k q h = ground (arith, entries_equal-cons lhs rhs k q h.2)

  pub resource_list_equal_self :
      (l : ResourceList) → IsMap l → resource_list_equal quantity_equal l l ≡ true
  unfolding resource_list_equal
  resource_list_equal_self l h = ground (arith, entries_self l h)
    where
      entries_self : (m : ResourceList) → IsMap m → entries_equal quantity_equal m m ≡ true
      entries_self [] h = refl
      entries_self ((k, q) ∷ m) h =
          ground (
            arith,
            bytes_eq_self k,
            reflexive q,
            entries_equal-cons m m k q h.0,
            entries_self m h.1,
          )

  -- Requirements equal themselves, as Go maps with a reflexive comparison of quantities.
  pub resource_requirements_equal_self :
      (r : ResourceRequirements)
      → IsMap r.limits
      → IsMap r.requests
      → resource_requirements_equal quantity_equal r r ≡ true
  unfolding resource_requirements_equal
  resource_requirements_equal_self r h k =
      ground (arith, resource_list_equal_self r.limits h, resource_list_equal_self r.requests k)
