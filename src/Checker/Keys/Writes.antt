-- ===== src/Checker/Keys/Writes.antt =====
-- checker/pkg/kv.go: the checks that write, when the nodes are one store.
use mathlib.Core.Path.{subst}
use undermoon_operator.Prelude.{
  ℕ, List, [], ◌∷◌, ◌++◌, Bytes, false, ◌≡◌, refl, inl, inr, arith, if◌then◌else◌, length, ◌==◌,
  map, sym, ◌∙◌, ap,
}
use undermoon_operator.Checker.Client.Store.{Store, put, remove}
use undermoon_operator.Checker.Slot.{slot}
use undermoon_operator.Checker.Keys.{Outside, put_keys, set_lua_value}
use undermoon_operator.Checker.Keys.Checks.{
  arguments, insert_all, gen_new_value, set_each, check_set, new_values, check_mset, del_entries,
  check_del, check_lua_mset,
}
use undermoon_operator.Checker.Keys.Sound.{
  Among, has_key, IsFair, Holds, Sound, Sound-pure, Sound-given, Sound-if, Sound-bind, Sound-then,
  Sound-ask_any, Sound-imp,
}
use undermoon_operator.Checker.Keys.Calls.{
  Sound-client_set, Sound-client_del, Sound-client_mset, Sound-client_lua_mset,
}
use undermoon_operator.Checker.Keys.Choices.{
  IsOf, Sound-visit, Sound-get_keys, Sound-random_choose_keys,
  Sound-random_choose_keys_in_same_slot,
}
use undermoon_operator.Checker.Keys.Reads.{Sound-wait_n, Sound-get_lua_keys}
use undermoon_operator.Checker.Keys.Puts.{Pending, emptied, put_each-cases}
use undermoon_operator.Checker.Keys.Memory.{
  Ready, Owes-Holds, Sound-put_key, Sound-written, set-cases, put_self, mset-Pending,
  mset-IsWritten, del-Pending, del-IsWritten,
}

module _ {E : Type 0} {out : Outside E} {store : E → Store} {luas : List Bytes}
    (fair : IsFair out store) where
  Sound-gen_new_value :
      {s t : Store} (k : Bytes)
      → Sound (Holds store luas s t) (gen_new_value out k) (λ v ck. Holds store luas s t ck)
  unfolding gen_new_value
  Sound-gen_new_value k =
      Sound-bind (Sound-ask_any store luas out.now fair.now_keeps)
        λ x. Sound-pure (k ++ b':' ∷ x) (λ ck p. p)

  Sound-set_each :
      {s : Store} (l : List (Bytes × Bytes))
      → ((k v : Bytes) → Among k v l → has_key k luas ≡ false)
      → Sound (Holds store luas s s) (set_each out l) (λ x ck. Ready store luas ck)
  unfolding set_each
  Sound-set_each {s = s} [] h = Sound-pure tt (λ ck p. (s, p))
  Sound-set_each {s = s} ((k, v) ∷ l) h = Sound-bind (Sound-gen_new_value k) λ value.
      Sound-then (Sound-client_set fair k value) λ x.
        Sound-then
          (Sound-imp
            (λ ck p.
              Owes-Holds store luas {s = s} {t = put k value s} {l = (k, value) ∷ []}
                (λ j. set-cases luas k v value s j (h k v (inl (refl, refl)))) p)
            (Sound-put_key store luas (slot k) k value
              (refl, h k v (inl (refl, refl)), put_self k value s)))
          λ y. Sound-set_each {s = put k value s} l (λ j w a. h j w (inr a))

  pub Sound-check_set :
      {s : Store} → Sound (Holds store luas s s) (check_set out) (λ x ck. Ready store luas ck)
  unfolding check_set
  Sound-check_set = Sound-then (Sound-wait_n fair 10) λ x.
      Sound-bind (Sound-random_choose_keys fair 10) λ kvs. Sound-given λ own.
        Sound-bind (Sound-visit fair kvs)
          λ l. Sound-given λ visit. Sound-set_each l (λ k v a. (own k v ((visit k v).0 a)).0)

  Sound-new_values :
      {s t : Store} (l : List (Bytes × Bytes))
      → Sound
          (Holds store luas s t)
          (new_values out l)
          (λ news ck. ((k w : Bytes) → Among k w news → Pending k l) × Holds store luas s t ck)
  unfolding new_values
  Sound-new_values [] = Sound-pure [] (λ ck p. (λ k w a. absurd a, p))
  Sound-new_values ((k, v) ∷ l) = Sound-bind (Sound-gen_new_value k) λ value.
      Sound-bind (Sound-new_values l) λ others. Sound-given λ h.
        Sound-pure ((k, value) ∷ others) (λ ck p. (
          λ j w a. elim a [
            | inl (q, r) ↦ (v, inl (q, refl))
            | inr b ↦ let (u, c) = h j w b in (u, inr c)
          ],
          p,
        ))

  pub Sound-check_mset :
      {s : Store} → Sound (Holds store luas s s) (check_mset out) (λ x ck. Ready store luas ck)
  unfolding check_mset
  Sound-check_mset {s = s} = Sound-then (Sound-wait_n fair 10) λ x.
      Sound-bind (Sound-random_choose_keys_in_same_slot fair 10) λ (i, kvs). Sound-given λ own.
        Sound-bind (Sound-visit fair kvs) λ l. Sound-given λ visit.
          Sound-bind (Sound-new_values l) λ news. Sound-given λ of.
            Sound-then (Sound-client_mset fair (arguments news)) λ y.
              Sound-bind (Sound-visit fair (insert_all news kvs)) λ written.
                Sound-given λ rewritten.
                  Sound-imp (λ ck p. p)
                    (Sound-written store luas i written
                      (mset-Pending luas s i kvs l news written own visit of rewritten)
                      (mset-IsWritten luas s i kvs l news written own visit of rewritten))

  Sound-del_entries :
      {s : Store} (i : ℕ) (kvs : List (Bytes × Bytes))
      → IsOf luas s i kvs
      → Sound (Holds store luas s s) (del_entries out i kvs) (λ x ck. Ready store luas ck)
  unfolding del_entries
  Sound-del_entries {s = s} i kvs own = Sound-then (Sound-wait_n fair 10) λ x.
      Sound-bind (Sound-get_keys fair kvs) λ keys. Sound-given λ (l, same, visit).
        Sound-then (Sound-client_del fair keys) λ y.
          subst
            (λ z.
              Sound (Holds store luas s (remove z s)) (put_keys i (map (λ k. (k, [])) z))
                (λ x ck. Ready store luas ck))
            (sym same)
            (Sound-written store luas i (emptied l) (del-Pending luas s i kvs l own visit)
              (del-IsWritten luas s i kvs l own visit))

  pub Sound-check_del :
      {s : Store} → Sound (Holds store luas s s) (check_del out) (λ x ck. Ready store luas ck)
  unfolding check_del
  Sound-check_del {s = s} = Sound-bind (Sound-random_choose_keys_in_same_slot fair 10) λ (i, kvs).
      Sound-given λ own.
        Sound-if (length kvs == 0) (λ q. Sound-pure tt (λ ck p. (s, p)))
          (λ q. Sound-del_entries i kvs own)

  Sound-set_lua_value :
      {s t : Store} (value : Bytes)
      → ((k : Bytes) → t k ≡ (if has_key k luas then value else s k))
      → Sound (Holds store luas s t) (set_lua_value value) (λ x ck. Ready store luas ck)
  unfolding set_lua_value
  Sound-set_lua_value {s = s} {t = t} value h = record {
    at = λ ck (p, q, f). (
      t,
      (
        p,
        q,
        record {
          keys_are = f.keys_are;
          filed = λ i k v e. let (a, b, c) = f.filed i k v e in (a, b, ground (arith, h k, b, c));
          lua_filed = λ k e. ground (arith, h k, e);
        },
      ),
    );
  }

  pub Sound-check_lua_mset :
      {s : Store} → Sound (Holds store luas s s) (check_lua_mset out) (λ x ck. Ready store luas ck)
  unfolding check_lua_mset
  Sound-check_lua_mset {s = s} = Sound-bind (Sound-get_lua_keys fair) λ keys. Sound-given λ same.
      Sound-then (Sound-wait_n fair (length keys)) λ x.
        Sound-bind (Sound-ask_any store luas out.nanosecond fair.nanosecond_keeps) λ t.
          Sound-bind (Sound-ask_any store luas out.uuid fair.uuid_keeps) λ u.
            Sound-then (Sound-client_lua_mset fair keys (map (λ k. t ++ b':' ∷ u) keys)) λ y.
              Sound-set_lua_value (t ++ b':' ∷ u) (λ k.
                put_each-cases keys (t ++ b':' ∷ u) s k
                ∙ ap (λ z. if has_key k z then t ++ b':' ∷ u else s k) same)
