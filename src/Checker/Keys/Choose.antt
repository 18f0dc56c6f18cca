-- ===== src/Checker/Keys/Choose.antt =====
-- checker/pkg/utils.go and kv.go: which keys a check chooses.
use undermoon_operator.Prelude.{
  ℕ, zero, suc, ◌-◌, ◌%◌, Option, none, some, List, [], ◌∷◌, Bytes, insert, leb, if◌then◌else◌,
  ◌==◌, get_elem?, length, map,
}
use undermoon_operator.Checker.Client.{panic}
use undermoon_operator.Checker.Slot.{slot_number}
use undermoon_operator.Checker.Keys.{
  ℤ, pos, negsuc, Outside, Check, pure, raise, ask, ◌>>=◌, keys_of,
}

unfoldable pub clamp : ℤ → ℕ
clamp (negsuc n) = 0
clamp (pos n) = if leb slot_number n then slot_number - 1 else n

-- The entries visited, until there are `n`.
unfoldable pub collect : ℕ → List (Bytes × Bytes) → List (Bytes × Bytes) → List (Bytes × Bytes)
collect n keys [] = keys
collect n keys ((k, v) ∷ l) =
    let more : List (Bytes × Bytes) = insert k v keys in
    let rest = collect n more l in if length more == n then more else rest

module _ {E : Type 0} (out : Outside E) where
  unfoldable pub choose_slot_from_norm_dist : Check E ℕ
  unfolding ask ◌>>=◌ pure clamp
  choose_slot_from_norm_dist = do drawn ← ask out.draw; pure (clamp drawn)

  -- `some` entry, or the panic of `randomGetKey`
  unfoldable pub found : Option (Bytes × Bytes) → Check E (Bytes × Bytes)
  unfolding pure raise
  found (some kv) = pure kv
  found none = raise panic

  -- With no entry, `% len(m)` panics.
  unfoldable pub random_get_key : List (Bytes × Bytes) → Check E (Bytes × Bytes)
  unfolding ask ◌>>=◌ found raise
  random_get_key m = do
    r ← ask out.rand
    l ← ask (out.visit m)
    if length m == 0 then raise panic else found (get_elem? l (r % length m))

  unfoldable pub random_choose_keys_in_same_slot : ℕ → Check E (ℕ × List (Bytes × Bytes))
  unfolding choose_slot_from_norm_dist ask ◌>>=◌ pure keys_of collect
  random_choose_keys_in_same_slot zero = pure (0, [])
  random_choose_keys_in_same_slot (suc n) = do
    s ← choose_slot_from_norm_dist
    m ← keys_of s
    l ← ask (out.visit m)
    pure (s, collect (suc n) [] l)

  -- The loop of `randomChooseKeys`, with the keys that it has so far.
  unfoldable pub choose_keys : ℕ → List (Bytes × Bytes) → Check E (List (Bytes × Bytes))
  unfolding choose_slot_from_norm_dist random_get_key ask ◌>>=◌ pure keys_of
  choose_keys zero keys = pure keys
  choose_keys (suc n) keys = do
    s ← choose_slot_from_norm_dist
    m ← keys_of s
    (k, v) ← random_get_key m
    choose_keys n (insert k v keys)

  unfoldable pub random_choose_keys : ℕ → Check E (List (Bytes × Bytes))
  unfolding choose_keys
  random_choose_keys n = choose_keys n []

  unfoldable pub get_keys : List (Bytes × Bytes) → Check E (List Bytes)
  unfolding ask ◌>>=◌ pure
  get_keys [] = pure []
  get_keys (kv ∷ m) = do l ← ask (out.visit (kv ∷ m)); pure (map (λ kv. kv.0) l)
