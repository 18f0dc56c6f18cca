-- ===== src/Checker/Keys/Sound.antt =====
-- checker/pkg/kv.go: what actions of the checker keep when the nodes are one store.
use undermoon_operator.Prelude.{
  ℕ, List, [], ◌∷◌, Bytes, bytes_eq, find, Bool, true, false, some, ◌≡◌, ◌∙◌, refl, ◌↔◌, ◌⊎◌,
  if◌then◌else◌,
}
use undermoon_operator.Checker.Client.{ClusterClient, CheckError, inconsistent, Result, ok, err}
use undermoon_operator.Checker.Client.Store.{Store, IsHonest}
use undermoon_operator.Checker.Slot.{slot}
use undermoon_operator.Checker.Keys.{
  Outside, KvChecker, Check, pure, raise, ask, ◌>>=◌, ◌>>◌, next_if_ok, with_client,
}

-- The entry is in the list.
abbrev pub Among : Bytes → Bytes → List (Bytes × Bytes) → Type 0
Among k v [] = ⊥
Among k v ((j, w) ∷ l) = ((j ≡ k) × (w ≡ v)) ⊎ Among k v l

unfoldable pub has_key : Bytes → List Bytes → Bool
has_key k [] = false
has_key k (j ∷ l) = if bytes_eq j k then true else has_key k l

-- Any error but a report of an inconsistency.
abbrev pub NoReport : CheckError → Type 0
NoReport (inconsistent k v w) = ⊥
NoReport y = Unit

abbrev pub After : {E A : Type 0} → (A → KvChecker E → Type 0) → Result A × KvChecker E → Type 0
After Q (ok a, ck) = Q a ck
After Q (err y, ck) = NoReport y

-- From a state with `P`, the action ends in one with `Q`, or with an error that reports nothing.
pub record Sound {E A : Type 0} (P : KvChecker E → Type 0) (m : Check E A)
    (Q : A → KvChecker E → Type 0) : Type 0 where
  pub at : (ck : KvChecker E) → P ck → After Q (m ck)

module _ {E A : Type 0} {P : KvChecker E → Type 0} where
  pub Sound-pure :
      {Q : A → KvChecker E → Type 0} (a : A)
      → ((ck : KvChecker E) → P ck → Q a ck)
      → Sound P (pure a) Q
  unfolding pure
  Sound-pure a h = record { at = h }

  pub Sound-raise :
      {Q : A → KvChecker E → Type 0} (y : CheckError) → NoReport y → Sound P (raise y) Q
  unfolding raise
  Sound-raise y h = record { at = λ ck p. h }

  -- What the step before has found.
  pub Sound-given :
      {F : Type 0} {Q : A → KvChecker E → Type 0} {m : Check E A}
      → (F → Sound P m Q)
      → Sound (λ ck. F × P ck) m Q
  Sound-given h = record { at = λ ck p. (h p.0).at ck p.1 }

  pub Sound-imp :
      {P2 : KvChecker E → Type 0} {Q : A → KvChecker E → Type 0} {m : Check E A}
      → ((ck : KvChecker E) → P2 ck → P ck)
      → Sound P m Q
      → Sound P2 m Q
  Sound-imp h k = record { at = λ ck p. k.at ck (h ck p) }

  pub Sound-if :
      {Q : A → KvChecker E → Type 0} {m n : Check E A} (b : Bool)
      → (b ≡ true → Sound P m Q)
      → (b ≡ false → Sound P n Q)
      → Sound P (if b then m else n) Q
  Sound-if true h k = h refl
  Sound-if false h k = k refl

module _ {E A B : Type 0} where
  After-next_if_ok :
      (R : A → KvChecker E → Type 0) (Q : B → KvChecker E → Type 0) (f : A → Check E B)
      → ((a : A) → Sound (R a) (f a) Q)
      → (o : Result A × KvChecker E) → After R o
      → After Q (next_if_ok f o)
  unfolding next_if_ok
  After-next_if_ok R Q f h (ok a, ck) p = (h a).at ck p
  After-next_if_ok R Q f h (err y, ck) p = p

  pub Sound-bind :
      {P : KvChecker E → Type 0} {R : A → KvChecker E → Type 0} {Q : B → KvChecker E → Type 0}
      {m : Check E A} {f : A → Check E B}
      → Sound P m R
      → ((a : A) → Sound (R a) (f a) Q)
      → Sound P (m >>= f) Q
  unfolding ◌>>=◌
  Sound-bind {R = R} {Q = Q} {m = m} {f = f} h k = record {
    at = λ ck p. After-next_if_ok R Q f k (m ck) (h.at ck p);
  }

  pub Sound-then :
      {P : KvChecker E → Type 0} {R : A → KvChecker E → Type 0} {Q : B → KvChecker E → Type 0}
      {m : Check E A} {n : Check E B}
      → Sound P m R
      → ((a : A) → Sound (R a) n Q)
      → Sound P (m >> n) Q
  unfolding ◌>>◌
  Sound-then h k = Sound-bind h k

-- The laws of the outside: what is drawn, read or allowed changes nothing in the store, and a range
-- over a map visits its entries.
pub record IsFair {E : Type 0} (out : Outside E) (store : E → Store) : Type 0 where
  pub honest : IsHonest out.nodes store
  pub wait_keeps : (n : ℕ) (e : E) → store (out.wait_n n e).1 ≡ store e
  pub draw_keeps : (e : E) → store (out.draw e).1 ≡ store e
  pub rand_keeps : (e : E) → store (out.rand e).1 ≡ store e
  pub now_keeps : (e : E) → store (out.now e).1 ≡ store e
  pub second_keeps : (e : E) → store (out.second e).1 ≡ store e
  pub nanosecond_keeps : (e : E) → store (out.nanosecond e).1 ≡ store e
  pub uuid_keeps : (e : E) → store (out.uuid e).1 ≡ store e
  pub cancelled_keeps : (e : E) → store (out.cancelled e).1 ≡ store e
  pub visit_keeps : (m : List (Bytes × Bytes)) (e : E) → store (out.visit m e).1 ≡ store e
  pub visits :
      (m : List (Bytes × Bytes)) (e : E) (k v : Bytes)
      → Among k v (out.visit m e).0 ↔ (find k m ≡ some v)

module _ {E : Type 0} (store : E → Store) (luas : List Bytes) where
  -- What the checker remembers is what the store `s` holds, but for the keys in `pending`. Each key is
  -- filed under its slot and is none of the `luas`, the keys of the scripts.
  pub record IsFiled (s : Store) (pending : List (Bytes × Bytes)) (ck : KvChecker E) : Type 0 where
    pub keys_are : ck.lua_keys ≡ luas
    pub filed :
        (i : ℕ) (k v : Bytes)
        → find k (ck.keys i) ≡ some v
        → (slot k ≡ i) × (has_key k luas ≡ false) × ((s k ≡ v) ⊎ ((w : Bytes) × Among k w pending))
    pub lua_filed : (k : Bytes) → has_key k luas ≡ true → s k ≡ ck.lua_value

  pub IsFiled-with_client :
      {s : Store} {ck : KvChecker E} {client : ClusterClient E}
      → IsFiled s [] ck
      → IsFiled s [] (with_client ck client)
  IsFiled-with_client f = record { keys_are = f.keys_are; filed = f.filed; lua_filed = f.lua_filed }

  -- The nodes hold the store `t`, and the checker remembers the store `s`.
  abbrev pub Holds : Store → Store → KvChecker E → Type 0
  Holds s t ck = (store ck.client.env ≡ t) × (ck.client.debug ≡ false) × IsFiled s [] ck

  module _ {s t : Store} where
    pub Sound-ask :
        {A : Type 0} (f : E → A × E)
        → ((e : E) → store (f e).1 ≡ store e)
        → Sound (Holds s t) (ask f) (λ a ck. ((e : E) × (a ≡ (f e).0)) × Holds s t ck)
    unfolding ask
    Sound-ask f h = record {
      at = λ ck p. ((ck.client.env, refl), (h ck.client.env ∙ p.0, p.1, IsFiled-with_client p.2));
    }

    pub Sound-ask_any :
        {A : Type 0} (f : E → A × E)
        → ((e : E) → store (f e).1 ≡ store e)
        → Sound (Holds s t) (ask f) (λ a ck. Holds s t ck)
    unfolding ask
    Sound-ask_any f h = record {
      at = λ ck p. (h ck.client.env ∙ p.0, p.1, IsFiled-with_client p.2);
    }
