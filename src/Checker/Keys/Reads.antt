-- ===== src/Checker/Keys/Reads.antt =====
-- checker/pkg/kv.go: the checks that read, when the nodes are one store.
use mathlib.Core.Path.{subst}
use undermoon_operator.Prelude.{
  ℕ, List, [], ◌∷◌, Bytes, bytes_eq, bytes_eq_self, true, Option, ◌≡◌, refl, inl, inr, arith,
  length, ◌==◌, map, not, sym,
}
use undermoon_operator.Checker.Client.{ok, limiter, invalid_length}
use undermoon_operator.Checker.Client.Store.{Store}
use undermoon_operator.Checker.Keys.{
  Outside, nil_to_empty, get_lua_keys, get_lua_value, wait_n, allowed,
}
use undermoon_operator.Checker.Keys.Checks.{
  compare_all, expected_value, lift, get_each, check_get, mget_entries, check_mget, check_lua_mget,
}
use undermoon_operator.Checker.Keys.Sound.{
  After, Among, has_key, IsFair, Holds, Sound, Sound-pure, Sound-raise, Sound-given, Sound-if,
  Sound-bind, Sound-then, Sound-ask_any,
}
use undermoon_operator.Checker.Keys.Calls.{
  Sound-client_get, Sound-client_mget, Sound-client_lua_mget,
}
use undermoon_operator.Checker.Keys.Choices.{
  IsOf, Sound-visit, Sound-get_keys, Sound-random_choose_keys,
  Sound-random_choose_keys_in_same_slot,
}

compare_all-agreed :
    (expected s : Store) (keys : List Bytes) (vs : List (Option Bytes))
    → map expected keys ≡ map s keys
    → map nil_to_empty vs ≡ map s keys
    → compare_all expected keys vs (ok tt) ≡ ok tt
unfolding compare_all
compare_all-agreed expected s [] vs h k = refl
compare_all-agreed expected s (j ∷ keys) [] h k = ground arith
compare_all-agreed expected s (j ∷ keys) (v ∷ vs) h k =
    ground (arith, compare_all-agreed expected s keys vs, bytes_eq_self (s j))

map-expected :
    (expected s : Store) (l : List (Bytes × Bytes))
    → ((k v : Bytes) → Among k v l → expected k ≡ s k)
    → map expected (map (λ kv. kv.0) l) ≡ map s (map (λ kv. kv.0) l)
map-expected expected s [] h = refl
map-expected expected s ((k, v) ∷ l) h =
    ground (arith, h k v (inl (refl, refl)), map-expected expected s l (λ j w a. h j w (inr a)))

map-lua_value :
    (s : Store) (value : Bytes) (l : List Bytes)
    → ((k : Bytes) → has_key k l ≡ true → s k ≡ value)
    → map (λ k. value) l ≡ map s l
unfolding has_key
map-lua_value s value [] h = refl
map-lua_value s value (j ∷ l) h =
    ground (arith, h j, bytes_eq_self j, map-lua_value s value l (λ k q. h k (ground (arith, q))))

module _ {E : Type 0} {out : Outside E} {store : E → Store} {luas : List Bytes}
    (fair : IsFair out store) {s : Store} where
  pub Sound-wait_n :
      {t : Store} (n : ℕ)
      → Sound (Holds store luas s t) (wait_n out n) (λ x ck. Holds store luas s t ck)
  unfolding wait_n allowed
  Sound-wait_n n =
      Sound-bind (Sound-ask_any store luas (out.wait_n n) (fair.wait_keeps n))
        λ b. Sound-if b (λ q. Sound-pure tt (λ ck p. p)) (λ q. Sound-raise limiter tt)

  Sound-get_each :
      (l : List (Bytes × Bytes))
      → ((k v : Bytes) → Among k v l → s k ≡ v)
      → Sound (Holds store luas s s) (get_each out l) (λ x ck. Holds store luas s s ck)
  unfolding get_each
  Sound-get_each [] h = Sound-pure tt (λ ck p. p)
  Sound-get_each ((k, v) ∷ l) h = Sound-bind (Sound-client_get fair k) λ va. Sound-given λ read.
      Sound-if (bytes_eq (nil_to_empty va.0) v) (λ q. Sound-get_each l (λ j w a. h j w (inr a)))
        (λ q. ground (arith, h k v (inl (refl, refl)), read, bytes_eq_self v))

  pub Sound-check_get :
      Sound (Holds store luas s s) (check_get out) (λ x ck. Holds store luas s s ck)
  unfolding check_get
  Sound-check_get = Sound-then (Sound-wait_n 10) λ x.
      Sound-bind (Sound-random_choose_keys fair 10) λ kvs. Sound-given λ own.
        Sound-bind (Sound-visit fair kvs)
          λ l. Sound-given λ visit. Sound-get_each l (λ k v a. (own k v ((visit k v).0 a)).1)

  Sound-compare_all :
      (expected : Bytes → Bytes) (keys : List Bytes) (vs : List (Option Bytes))
      → map expected keys ≡ map s keys
      → map nil_to_empty vs ≡ map s keys
      → Sound
          (Holds store luas s s)
          (lift (compare_all expected keys vs (ok tt)))
          (λ x ck. Holds store luas s s ck)
  unfolding lift
  Sound-compare_all expected keys vs h k = record {
    at = λ ck p.
        subst (λ r. After (λ x c. Holds store luas s s c) (r, ck))
          (sym (compare_all-agreed expected s keys vs h k)) p;
  }

  Sound-mget_entries :
      (i : ℕ) (kvs : List (Bytes × Bytes))
      → IsOf luas s i kvs
      → Sound (Holds store luas s s) (mget_entries out kvs) (λ x ck. Holds store luas s s ck)
  unfolding mget_entries nil_to_empty
  Sound-mget_entries i kvs own = Sound-then (Sound-wait_n 10) λ x.
      Sound-bind (Sound-get_keys fair kvs) λ keys. Sound-given λ (l, same, visit).
        Sound-bind (Sound-client_mget fair keys) λ va. Sound-given λ read.
          Sound-if (not (length keys == length va.0))
            (λ q. Sound-raise (invalid_length (length keys) (length va.0)) tt)
            (λ q.
              Sound-compare_all (expected_value kvs) keys va.0
                (subst (λ z. map (expected_value kvs) z ≡ map s z) (sym same)
                  (map-expected (expected_value kvs) s l
                    (λ k v a. ground (arith, visit k v, own k v))))
                read)

  pub Sound-check_mget :
      Sound (Holds store luas s s) (check_mget out) (λ x ck. Holds store luas s s ck)
  unfolding check_mget
  Sound-check_mget = Sound-bind (Sound-random_choose_keys_in_same_slot fair 10) λ chosen.
      Sound-given λ own.
        Sound-if (length chosen.1 == 0) (λ q. Sound-pure tt (λ ck p. p))
          (λ q. Sound-mget_entries chosen.0 chosen.1 own)

  pub Sound-get_lua_keys :
      {t : Store}
      → Sound
          (Holds store luas s t)
          (get_lua_keys)
          (λ keys ck. (keys ≡ luas) × Holds store luas s t ck)
  unfolding get_lua_keys
  Sound-get_lua_keys = record { at = λ ck p. (p.2.keys_are, p) }

  pub Sound-get_lua_value :
      {t : Store}
      → Sound (Holds store luas s t) (get_lua_value) (λ value ck.
        ((k : Bytes) → has_key k luas ≡ true → s k ≡ value) × Holds store luas s t ck)
  unfolding get_lua_value
  Sound-get_lua_value = record { at = λ ck p. (p.2.lua_filed, p) }

  pub Sound-check_lua_mget :
      Sound (Holds store luas s s) (check_lua_mget out) (λ x ck. Holds store luas s s ck)
  unfolding check_lua_mget
  Sound-check_lua_mget = Sound-bind Sound-get_lua_keys λ keys. Sound-given λ same.
      Sound-then (Sound-wait_n (length keys)) λ x.
        Sound-bind (Sound-client_lua_mget fair keys) λ va. Sound-given λ read.
          Sound-bind Sound-get_lua_value λ value. Sound-given λ agreed.
            Sound-compare_all (λ k. value) keys va.0
              (subst (λ z. map (λ k. value) z ≡ map s z) (sym same)
                (map-lua_value s value luas agreed))
              read
