-- ===== src/Checker/Keys/Detects.antt =====
-- checker/pkg/kv.go: a check that passes has compared the values.
use mathlib.Core.Path.{subst}
use undermoon_operator.Prelude.{
  List, [], ◌∷◌, Bytes, bytes_eq, eq_of_bytes_eq, Bool, true, false, Option, ◌≡◌, ◌≢◌, refl, inl,
  inr, arith, if◌then◌else◌, length, map, sym, ◌∙◌, Bool-cases,
}
use undermoon_operator.Checker.Client.{Result, ok, err, CheckError, inconsistent}
use undermoon_operator.Checker.Client.Store.{Store}
use undermoon_operator.Checker.Keys.{
  Outside, KvChecker, Check, nil_to_empty, ◌>>=◌, ◌>>◌, next_if_ok, raise,
}
use undermoon_operator.Checker.Keys.Checks.{compare_all, lift, get_each, check_lua_mget}
use undermoon_operator.Checker.Keys.Sound.{After, Among, has_key, IsFair, Holds, Sound}
use undermoon_operator.Checker.Keys.Calls.{Sound-client_get, Sound-client_lua_mget}
use undermoon_operator.Checker.Keys.Reads.{Sound-wait_n, Sound-get_lua_keys, Sound-get_lua_value}

abbrev WhenOk : {E A : Type 0} → (A → KvChecker E → Type 0) → Result A × KvChecker E → Type 0
WhenOk Q (ok a, ck) = Q a ck
WhenOk Q (err y, ck) = Unit

-- From a state with `P`, the action ends in one with `Q`, or with any error.
record Passing {E A : Type 0} (P : KvChecker E → Type 0) (m : Check E A)
    (Q : A → KvChecker E → Type 0) : Type 0 where
  at : (ck : KvChecker E) → P ck → WhenOk Q (m ck)

WhenOk-After :
    {E A : Type 0} (Q : A → KvChecker E → Type 0) (o : Result A × KvChecker E)
    → After Q o
    → WhenOk Q o
WhenOk-After Q (ok a, ck) p = p
WhenOk-After Q (err y, ck) p = tt

WhenOk-always : {E A F : Type 0} (o : Result A × KvChecker E) → F → WhenOk (λ x ck. F) o
WhenOk-always (ok a, ck) h = h
WhenOk-always (err y, ck) h = tt

WhenOk-map :
    {E A : Type 0} {Q Q2 : A → KvChecker E → Type 0}
    → ((a : A) (ck : KvChecker E) → Q a ck → Q2 a ck)
    → (o : Result A × KvChecker E) → WhenOk Q o
    → WhenOk Q2 o
WhenOk-map h (ok a, ck) p = h a ck p
WhenOk-map h (err y, ck) p = tt

-- What is known of an action that did pass.
passed :
    {E F : Type 0} (o : Result (Unit {0}) × KvChecker E) → WhenOk (λ x ck. F) o → o.0 ≡ ok tt → F
passed (ok x, ck) h q = h
passed (err y, ck) h q = ground (arith, q)

-- The error of a comparison is kept.
compare_all-err :
    (expected : Bytes → Bytes) (keys : List Bytes) (vs : List (Option Bytes)) (y : CheckError)
    → compare_all expected keys vs (err y) ≢ ok tt
unfolding compare_all
compare_all-err expected [] vs y h = ground arith
compare_all-err expected (j ∷ keys) [] y h = ground arith
compare_all-err expected (j ∷ keys) (v ∷ vs) y h =
    elim (Bool-cases (bytes_eq (nil_to_empty v) (expected j))) [
      | inl q ↦ compare_all-err expected keys vs y (ground (arith, h, q))
      | inr q ↦
          compare_all-err expected keys vs (inconsistent j (nil_to_empty v) (expected j))
            (ground (arith, h, q))
    ]

compare_all-ok :
    (expected t : Store) (keys : List Bytes) (vs : List (Option Bytes))
    → map nil_to_empty vs ≡ map t keys
    → compare_all expected keys vs (ok tt) ≡ ok tt
    → (k : Bytes) → has_key k keys ≡ true
    → t k ≡ expected k
unfolding compare_all has_key
compare_all-ok expected t [] vs read h k e = ground arith
compare_all-ok expected t (j ∷ keys) [] read h k e = ground arith
compare_all-ok expected t (j ∷ keys) (v ∷ vs) read h k e =
    elim (Bool-cases (bytes_eq (nil_to_empty v) (expected j))) [
      | inl q ↦ ground (
        arith,
        read,
        h,
        e,
        q,
        eq_of_bytes_eq (nil_to_empty v) (expected j),
        eq_of_bytes_eq j k,
        (λ (a : map nil_to_empty vs ≡ map t keys)
              (b : compare_all expected keys vs (ok tt) ≡ ok tt).
            compare_all-ok expected t keys vs a b k),
      )
      | inr q ↦ absurd (
          compare_all-err expected keys vs (inconsistent j (nil_to_empty v) (expected j))
            (ground (arith, h, q)))
    ]

module _ {E A B : Type 0} where
  WhenOk-next_if_ok :
      (R : A → KvChecker E → Type 0) (Q : B → KvChecker E → Type 0) (f : A → Check E B)
      → ((a : A) → Passing (R a) (f a) Q)
      → (o : Result A × KvChecker E) → WhenOk R o
      → WhenOk Q (next_if_ok f o)
  unfolding next_if_ok
  WhenOk-next_if_ok R Q f h (ok a, ck) p = (h a).at ck p
  WhenOk-next_if_ok R Q f h (err y, ck) p = tt

  -- A step that is known to be sound, and what follows it.
  Passing-bind :
      {P : KvChecker E → Type 0} {R : A → KvChecker E → Type 0} {Q : B → KvChecker E → Type 0}
      {m : Check E A} {f : A → Check E B}
      → Sound P m R
      → ((a : A) → Passing (R a) (f a) Q)
      → Passing P (m >>= f) Q
  unfolding ◌>>=◌
  Passing-bind {R = R} {Q = Q} {m = m} {f = f} h k = record {
    at = λ ck p. WhenOk-next_if_ok R Q f k (m ck) (WhenOk-After R (m ck) (h.at ck p));
  }

module _ {E A : Type 0} {P : KvChecker E → Type 0} {Q : A → KvChecker E → Type 0} where
  Passing-given : {F : Type 0} {m : Check E A} → (F → Passing P m Q) → Passing (λ ck. F × P ck) m Q
  Passing-given h = record { at = λ ck p. (h p.0).at ck p.1 }

  Passing-if :
      {m n : Check E A} (b : Bool)
      → (b ≡ true → Passing P m Q)
      → (b ≡ false → Passing P n Q)
      → Passing P (if b then m else n) Q
  Passing-if true h k = h refl
  Passing-if false h k = k refl

  Passing-post :
      {Q2 : A → KvChecker E → Type 0} {m : Check E A}
      → ((a : A) (ck : KvChecker E) → Q a ck → Q2 a ck)
      → Passing P m Q
      → Passing P m Q2
  Passing-post {m = m} h k = record { at = λ ck p. WhenOk-map h (m ck) (k.at ck p) }

  Passing-raise : (y : CheckError) → Passing P (raise y) Q
  unfolding raise
  Passing-raise y = record { at = λ ck p. tt }

module _ {E : Type 0} {out : Outside E} {store : E → Store} {luas : List Bytes}
    (fair : IsFair out store) {s t : Store} where
  Passing-get_each :
      (l : List (Bytes × Bytes)) (k v : Bytes)
      → Among k v l
      → Passing (Holds store luas s t) (get_each out l) (λ x ck. t k ≡ v)
  unfolding get_each
  Passing-get_each [] k v a = absurd a
  Passing-get_each ((j, w) ∷ l) k v (inr a) = Passing-bind (Sound-client_get fair j) λ va.
      Passing-given λ read.
        Passing-if (bytes_eq (nil_to_empty va.0) w) (λ q. Passing-get_each l k v a)
          (λ q. Passing-raise (inconsistent j (nil_to_empty va.0) w))
  Passing-get_each ((j, w) ∷ l) k v (inl (p, q)) = Passing-bind (Sound-client_get fair j) λ va.
      Passing-given λ read.
        Passing-if (bytes_eq (nil_to_empty va.0) w)
          (λ e. record {
            at = λ ck h.
                WhenOk-always (get_each out l ck)
                  (ground (arith, eq_of_bytes_eq (nil_to_empty va.0) w));
          })
          (λ e. Passing-raise (inconsistent j (nil_to_empty va.0) w))

  Passing-compare_all :
      (expected : Store) (keys : List Bytes) (vs : List (Option Bytes))
      → map nil_to_empty vs ≡ map t keys
      → Passing
          (Holds store luas s t)
          (lift (compare_all expected keys vs (ok tt)))
          (λ x ck. (k : Bytes) → has_key k keys ≡ true → t k ≡ expected k)
  unfolding lift
  Passing-compare_all expected keys vs read = record {
    at = λ ck h.
        compared (compare_all expected keys vs (ok tt)) ck (compare_all-ok expected t keys vs read);
  }
    where
      compared :
          (r : Result (Unit {0})) (ck : KvChecker E)
          → (r ≡ ok tt → (k : Bytes) → has_key k keys ≡ true → t k ≡ expected k)
          → WhenOk (λ x c. (k : Bytes) → has_key k keys ≡ true → t k ≡ expected k) (r, ck)
      compared (ok x) ck h = h refl
      compared (err y) ck h = tt

  Passing-check_lua_mget :
      Passing
        (Holds store luas s t)
        (check_lua_mget out)
        (λ x ck. (k : Bytes) → has_key k luas ≡ true → t k ≡ s k)
  unfolding check_lua_mget ◌>>◌
  Passing-check_lua_mget = Passing-bind (Sound-get_lua_keys fair) λ keys. Passing-given λ same.
      Passing-bind (Sound-wait_n fair (length keys)) λ x.
        Passing-bind (Sound-client_lua_mget fair keys) λ va. Passing-given λ read.
          Passing-bind (Sound-get_lua_value fair) λ value. Passing-given λ agreed.
            Passing-post
              (λ x ck h k e. h k (subst (λ l. has_key k l ≡ true) (sym same) e) ∙ sym (agreed k e))
              (Passing-compare_all (λ k. value) keys va.0 read)

  -- The nodes are one store `t`, the checker remembers a store `s`: a comparison by GET of some entries
  -- does not pass when the nodes hold another value for one of them.
  pub get_each-Among :
      (l : List (Bytes × Bytes)) (ck : KvChecker E) (k v : Bytes)
      → Holds store luas s t ck
      → Among k v l
      → t k ≢ v
      → (get_each out l ck).0 ≢ ok tt
  get_each-Among l ck k v h a ne q =
      ne (passed (get_each out l ck) ((Passing-get_each l k v a).at ck h) q)

  -- The nodes are one store `t`, the checker remembers a store `s`: where the two differ for one of the
  -- keys of the scripts, the check that reads these keys does not pass.
  pub check_lua_mget-has_key :
      (ck : KvChecker E) (k : Bytes)
      → Holds store luas s t ck
      → has_key k luas ≡ true
      → t k ≢ s k
      → (check_lua_mget out ck).0 ≢ ok tt
  check_lua_mget-has_key ck k h e ne q =
      ne (passed (check_lua_mget out ck) (Passing-check_lua_mget.at ck h) q k e)
