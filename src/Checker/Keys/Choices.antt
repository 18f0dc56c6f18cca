-- ===== src/Checker/Keys/Choices.antt =====
-- checker/pkg/kv.go and utils.go: the keys chosen are the checker's, with the values that it remembers.
use undermoon_operator.Prelude.{
  ℕ, zero, suc, ◌%◌, List, [], ◌∷◌, Bytes, find, insert, find-insert, false, Option, none, some,
  ◌≡◌, refl, ◌⊎◌, inl, inr, arith, get_elem?, length, ◌==◌, eq_of_bytes_eq, ◌↔◌, map,
}
use undermoon_operator.Checker.Client.{panic}
use undermoon_operator.Checker.Client.Store.{Store}
use undermoon_operator.Checker.Slot.{slot}
use undermoon_operator.Checker.Keys.{Outside, ask, keys_of}
use undermoon_operator.Checker.Keys.Choose.{
  collect, choose_slot_from_norm_dist, found, random_get_key, random_choose_keys_in_same_slot,
  choose_keys, random_choose_keys, get_keys, clamp,
}
use undermoon_operator.Checker.Keys.Sound.{
  Among, has_key, IsFair, Holds, Sound, Sound-pure, Sound-raise, Sound-given, Sound-if, Sound-bind,
  Sound-ask_any,
}

-- Entries of the slot `i`, with the values of the store `s`.
abbrev pub IsOf : List Bytes → Store → ℕ → List (Bytes × Bytes) → Type 0
IsOf luas s i m =
    (k v : Bytes) → find k m ≡ some v → (slot k ≡ i) × (has_key k luas ≡ false) × (s k ≡ v)

-- Entries of any slot.
abbrev pub IsOwn : List Bytes → Store → List (Bytes × Bytes) → Type 0
IsOwn luas s m = (k v : Bytes) → find k m ≡ some v → (has_key k luas ≡ false) × (s k ≡ v)

-- A range over a map visits its entries.
abbrev pub IsVisit : List (Bytes × Bytes) → List (Bytes × Bytes) → Type 0
IsVisit m l = (k v : Bytes) → Among k v l ↔ (find k m ≡ some v)

find-collect :
    (n : ℕ) (keys l : List (Bytes × Bytes)) (k v : Bytes)
    → find k (collect n keys l) ≡ some v
    → (find k keys ≡ some v) ⊎ Among k v l
unfolding collect
find-collect n keys [] k v h = inl h
find-collect n keys ((j, w) ∷ l) k v h = ground (
  arith,
  find-insert j w keys,
  find-insert j k w keys,
  find-collect n (insert j w keys) l k v,
  eq_of_bytes_eq j k,
)

Among-get_elem? :
    (l : List (Bytes × Bytes)) (i : ℕ) (kv : Bytes × Bytes)
    → get_elem? l i ≡ some kv
    → Among kv.0 kv.1 l
Among-get_elem? [] i kv h = ground arith
Among-get_elem? (e ∷ l) zero kv h = ground arith
Among-get_elem? (e ∷ l) (suc i) kv h = inr (Among-get_elem? l i kv h)

module _ {E : Type 0} {out : Outside E} {store : E → Store} {luas : List Bytes}
    (fair : IsFair out store) {s t : Store} where
  Sound-keys_of :
      (i : ℕ)
      → Sound (Holds store luas s t) (keys_of i) (λ m ck. IsOf luas s i m × Holds store luas s t ck)
  unfolding keys_of
  Sound-keys_of i = record { at = λ ck p. (λ k v h. ground (arith, p.2.filed i k v), p) }

  pub Sound-visit :
      (m : List (Bytes × Bytes))
      → Sound
          (Holds store luas s t)
          (ask (out.visit m))
          (λ l ck. IsVisit m l × Holds store luas s t ck)
  unfolding ask
  Sound-visit m = record {
    at = λ ck p. (
      λ k v. fair.visits m ck.client.env k v,
      (Sound-ask_any store luas (out.visit m) (fair.visit_keeps m)).at ck p,
    );
  }

  Sound-choose_slot :
      Sound
        (Holds store luas s t)
        (choose_slot_from_norm_dist out)
        (λ i ck. Holds store luas s t ck)
  unfolding choose_slot_from_norm_dist
  Sound-choose_slot =
      Sound-bind (Sound-ask_any store luas out.draw fair.draw_keeps)
        λ drawn. Sound-pure (clamp drawn) (λ ck p. p)

  pub Sound-random_choose_keys_in_same_slot :
      (n : ℕ)
      → Sound
          (Holds store luas s t)
          (random_choose_keys_in_same_slot out n)
          (λ chosen ck. IsOf luas s chosen.0 chosen.1 × Holds store luas s t ck)
  unfolding random_choose_keys_in_same_slot find
  Sound-random_choose_keys_in_same_slot zero =
      Sound-pure (0, []) (λ ck p. (λ k v h. ground arith, p))
  Sound-random_choose_keys_in_same_slot (suc n) = Sound-bind Sound-choose_slot λ i.
      Sound-bind (Sound-keys_of i) λ m. Sound-given λ own. Sound-bind (Sound-visit m) λ l.
        Sound-given λ visit.
          Sound-pure (i, collect (suc n) [] l)
            (λ ck p.
              (λ k v h. ground (arith, find-collect (suc n) [] l k v h, visit k v, own k v), p))

  Sound-found :
      (m l : List (Bytes × Bytes))
      → IsVisit m l
      → (o : Option (Bytes × Bytes)) → ((kv : Bytes × Bytes) → o ≡ some kv → Among kv.0 kv.1 l)
      → Sound
          (Holds store luas s t)
          (found out o)
          (λ kv ck. (find kv.0 m ≡ some kv.1) × Holds store luas s t ck)
  unfolding found
  Sound-found m l visit none among = Sound-raise panic tt
  Sound-found m l visit (some kv) among =
      Sound-pure kv (λ ck p. ((visit kv.0 kv.1).0 (among kv refl), p))

  Sound-random_get_key :
      (m : List (Bytes × Bytes))
      → Sound
          (Holds store luas s t)
          (random_get_key out m)
          (λ kv ck. (find kv.0 m ≡ some kv.1) × Holds store luas s t ck)
  unfolding random_get_key
  Sound-random_get_key m = Sound-bind (Sound-ask_any store luas out.rand fair.rand_keeps) λ r.
      Sound-bind (Sound-visit m) λ l. Sound-given λ visit.
        Sound-if (length m == 0) (λ q. Sound-raise panic tt)
          (λ q.
            Sound-found m l visit (get_elem? l (r % length m))
              (λ kv h. Among-get_elem? l (r % length m) kv h))

  Sound-choose_keys :
      (n : ℕ) (keys : List (Bytes × Bytes))
      → IsOwn luas s keys
      → Sound
          (Holds store luas s t)
          (choose_keys out n keys)
          (λ kvs ck. IsOwn luas s kvs × Holds store luas s t ck)
  unfolding choose_keys
  Sound-choose_keys zero keys own = Sound-pure keys (λ ck p. (own, p))
  Sound-choose_keys (suc n) keys own = Sound-bind Sound-choose_slot λ i.
      Sound-bind (Sound-keys_of i) λ m. Sound-given λ of. Sound-bind (Sound-random_get_key m) λ kv.
        Sound-given λ at. Sound-choose_keys n (insert kv.0 kv.1 keys) (λ k v h.
          ground
            (arith, own k v, of kv.0 kv.1, find-insert kv.0 k kv.1 keys, eq_of_bytes_eq kv.0 k))

  pub Sound-random_choose_keys :
      (n : ℕ)
      → Sound
          (Holds store luas s t)
          (random_choose_keys out n)
          (λ kvs ck. IsOwn luas s kvs × Holds store luas s t ck)
  unfolding random_choose_keys find
  Sound-random_choose_keys n = Sound-choose_keys n [] (λ k v h. ground arith)

  pub Sound-get_keys :
      (m : List (Bytes × Bytes))
      → Sound (Holds store luas s t) (get_keys out m) (λ keys ck.
        ((l : List (Bytes × Bytes)) × (keys ≡ map (λ kv. kv.0) l) × IsVisit m l)
        × Holds store luas s t ck)
  unfolding get_keys find
  Sound-get_keys [] =
      Sound-pure [] (λ ck p. (([], refl, λ k v. ((λ h. absurd h), (λ h. ground arith))), p))
  Sound-get_keys (kv ∷ m) =
      Sound-bind (Sound-visit (kv ∷ m))
        λ l. Sound-given λ visit. Sound-pure (map (λ kv. kv.0) l) (λ ck p. ((l, refl, visit), p))
