-- ===== src/Prelude/Dict.antt =====
-- A Go map with strings as keys: its entries, one for each key, in some order.
use mathlib.Core.Path.{◌≡◌, refl}
use mathlib.Core.Option.{Option, none, some}
use mathlib.Core.List.{List, [], ◌∷◌}
use native.Mathlib.Omega.{arith}
use undermoon_operator.Prelude.Tests.{if◌then◌else◌}
use undermoon_operator.Prelude.Text.{Bytes, bytes_eq, bytes_eq_self, eq_of_bytes_eq}

module _ {ℓ} {V : Type ℓ} where
  unfoldable pub find : Bytes → List (Bytes × V) → Option V
  find k [] = none
  find k ((j, v) ∷ m) = if bytes_eq j k then some v else find k m

  unfoldable pub insert : Bytes → V → List (Bytes × V) → List (Bytes × V)
  insert k v [] = (k, v) ∷ []
  insert k v ((j, w) ∷ m) = if bytes_eq j k then (k, v) ∷ m else (j, w) ∷ insert k v m

  pub find-insert :
      (k j : Bytes) (v : V) (m : List (Bytes × V))
      → find j (insert k v m) ≡ (if bytes_eq k j then some v else find j m)
  unfolding find insert
  find-insert k j v [] = refl
  find-insert k j v ((i, w) ∷ m) = ground (
    arith,
    eq_of_bytes_eq k j,
    eq_of_bytes_eq i k,
    eq_of_bytes_eq i j,
    bytes_eq_self k,
    bytes_eq_self i,
    bytes_eq_self j,
    find-insert k j v m,
  )
