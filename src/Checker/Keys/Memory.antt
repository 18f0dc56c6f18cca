-- ===== src/Checker/Keys/Memory.antt =====
-- checker/pkg/kv.go: the memory of the checker after a write.
use undermoon_operator.Prelude.{
  ℕ, List, [], ◌∷◌, Bytes, bytes_eq, bytes_eq_self, eq_of_bytes_eq, find, insert, find-insert,
  false, some, ◌≡◌, refl, ◌⊎◌, inl, inr, arith, if◌then◌else◌, ◌==◌, map,
}
use undermoon_operator.Checker.Client.Store.{Store, put, put_arguments, remove}
use undermoon_operator.Checker.Slot.{slot}
use undermoon_operator.Checker.Keys.{KvChecker, put_key, put_keys}
use undermoon_operator.Checker.Keys.Checks.{arguments, insert_all}
use undermoon_operator.Checker.Keys.Sound.{
  Among, has_key, IsFiled, Holds, Sound, Sound-pure, Sound-then, Sound-imp,
}
use undermoon_operator.Checker.Keys.Choices.{IsOf, IsVisit}
use undermoon_operator.Checker.Keys.Puts.{
  Pending, put-cases, put_arguments-cases, find-insert_all, find-insert_all-cases,
  find-insert_all_new, emptied, remove-cases, Among-emptied,
}

-- Each entry is of the slot `i`, of the checker's own keys, and in the store.
abbrev pub IsWritten : List Bytes → Store → ℕ → List (Bytes × Bytes) → Type 0
IsWritten luas t i l =
    (k v : Bytes) → Among k v l → (slot k ≡ i) × (has_key k luas ≡ false) × (t k ≡ v)

module _ (luas : List Bytes) where
  pub set-cases :
      (k v w : Bytes) (s : Store) (j : Bytes)
      → has_key k luas ≡ false
      → (put k w s j ≡ s j) ⊎ ((has_key j luas ≡ false) × Pending j ((k, w) ∷ []))
  set-cases k v w s j h = elim (put-cases k w s j) [
    | inl q ↦ inl q
    | inr (p, q) ↦ inr (ground (arith, p, h), (w, inl (p, refl)))
  ]

-- The keys and values of a `MSET`, and of a `DEL`, of entries `kvs`.
module _ (luas : List Bytes) (s : Store) (i : ℕ) (kvs l : List (Bytes × Bytes)) where
  pub mset-Pending :
      (news written : List (Bytes × Bytes))
      → IsOf luas s i kvs
      → IsVisit kvs l
      → ((k w : Bytes) → Among k w news → Pending k l)
      → IsVisit (insert_all news kvs) written
      → (k : Bytes)
      → (put_arguments (arguments news) s k ≡ s k) ⊎ ((has_key k luas ≡ false) × Pending k written)
  mset-Pending news written own visit of rewritten k = elim (put_arguments-cases news s k) [
    | inl q ↦ inl q
    | inr (w, a) ↦
        let (v, b) = of k w a in
        let (u, q) = find-insert_all_new news kvs k w a in
        inr ((own k v ((visit k v).0 b)).1, (u, (rewritten k u).1 q))
  ]

  pub mset-IsWritten :
      (news written : List (Bytes × Bytes))
      → IsOf luas s i kvs
      → IsVisit kvs l
      → ((k w : Bytes) → Among k w news → Pending k l)
      → IsVisit (insert_all news kvs) written
      → IsWritten luas (put_arguments (arguments news) s) i written
  mset-IsWritten news written own visit of rewritten k w a =
      let q = (rewritten k w).0 a in
      let value = find-insert_all news kvs s (λ j v h. (own j v h).2) k w q in
      elim (find-insert_all-cases news kvs k w q) [
        | inl p ↦ ((own k w p).0, (own k w p).1, value)
        | inr (u, b) ↦
            let (v, c) = of k u b in let mine = own k v ((visit k v).0 c) in (mine.0, mine.1, value)
      ]

  pub del-Pending :
      IsOf luas s i kvs
      → IsVisit kvs l
      → (k : Bytes)
      → (remove (map (λ kv. kv.0) l) s k ≡ s k) ⊎ ((has_key k luas ≡ false) × Pending k (emptied l))
  del-Pending own visit k = elim (remove-cases l s k) [
    | inl q ↦ inl q
    | inr ((v, a), b) ↦ inr ((own k v ((visit k v).0 a)).1, b)
  ]

  pub del-IsWritten :
      IsOf luas s i kvs
      → IsVisit kvs l
      → IsWritten luas (remove (map (λ kv. kv.0) l) s) i (emptied l)
  del-IsWritten own visit k w a =
      let ((v, b), q) = Among-emptied l s k w a in
      let mine = own k v ((visit k v).0 b) in (mine.0, mine.1, q)

pub put_self : (k v : Bytes) (s : Store) → put k v s k ≡ v
unfolding put
put_self k v s = ground (arith, bytes_eq_self k)

module _ {E : Type 0} (store : E → Store) (luas : List Bytes) where
  -- The nodes hold the store `t`, which the checker remembers but for the keys in `pending`.
  abbrev pub Owes : Store → List (Bytes × Bytes) → KvChecker E → Type 0
  Owes t pending ck =
      (store ck.client.env ≡ t) × (ck.client.debug ≡ false) × IsFiled store luas t pending ck

  -- The checker remembers what the nodes hold.
  abbrev pub Ready : KvChecker E → Type 0
  Ready ck = (s : Store) × Holds store luas s s ck

  -- After a write, the keys written are pending.
  pub Owes-Holds :
      {s t : Store} {l : List (Bytes × Bytes)} {ck : KvChecker E}
      → ((k : Bytes) → (t k ≡ s k) ⊎ ((has_key k luas ≡ false) × Pending k l))
      → Holds store luas s t ck
      → Owes t l ck
  Owes-Holds {s = s} {t = t} {l = l} {ck = ck} h (p, q, f) = (
    p,
    q,
    record {
      keys_are = f.keys_are;
      filed = λ i k v e.
          let (a, b, c) = f.filed i k v e in
          (a, b, elim (h k) [ inr (g, w) ↦ inr w | inl g ↦ inl (ground (arith, g, c)) ]);
      lua_filed = λ k e. ground (arith, h k, e, f.lua_filed k);
    },
  )

  insert-cases :
      (i j : ℕ) (k v m w : Bytes) (old : List (Bytes × Bytes))
      → find m (if j == i then insert k v old else old) ≡ some w
      → ((j ≡ i) × (k ≡ m) × (v ≡ w))
        ⊎ ((find m old ≡ some w) × ((bytes_eq k m ≡ false) ⊎ ((j == i) ≡ false)))
  insert-cases i j k v m w old e = ground (arith, e, find-insert k m v old, eq_of_bytes_eq k m)

  filed-insert :
      {t : Store} {i : ℕ} {k v : Bytes} {l : List (Bytes × Bytes)} {ck : KvChecker E}
      → (slot k ≡ i) × (has_key k luas ≡ false) × (t k ≡ v)
      → IsFiled store luas t ((k, v) ∷ l) ck
      → (j : ℕ) (m w : Bytes)
      → find m (if j == i then insert k v (ck.keys j) else ck.keys j) ≡ some w
      → (slot m ≡ j) × (has_key m luas ≡ false) × ((t m ≡ w) ⊎ Pending m l)
  filed-insert {i = i} {k = k} {v = v} {ck = ck} h f j m w e =
      elim (insert-cases i j k v m w (ck.keys j) e) [
        | inl (p, q, r) ↦
            (ground (arith, p, q, h), ground (arith, q, h), inl (ground (arith, q, r, h)))
        | inr (p, q) ↦
            let (a, b, c) = f.filed j m w p in
            (
              a,
              b,
              elim c [
                | inl r ↦ inl r
                | inr (u, inl (r, x)) ↦ absurd (ground (arith, r, q, a, h, bytes_eq_self m))
                | inr (u, inr x) ↦ inr (u, x)
              ],
            )
      ]

  pub Sound-put_key :
      {t : Store} {l : List (Bytes × Bytes)} (i : ℕ) (k v : Bytes)
      → (slot k ≡ i) × (has_key k luas ≡ false) × (t k ≡ v)
      → Sound (Owes t ((k, v) ∷ l)) (put_key i k v) (λ x ck. Owes t l ck)
  unfolding put_key
  Sound-put_key i k v h = record {
    at = λ ck (p, q, f).
        (p, q, record { keys_are = f.keys_are; filed = filed-insert h f; lua_filed = f.lua_filed });
  }

  Sound-put_keys :
      {t : Store} (i : ℕ) (l : List (Bytes × Bytes))
      → IsWritten luas t i l
      → Sound (Owes t l) (put_keys i l) (λ x ck. Ready ck)
  unfolding put_keys
  Sound-put_keys {t = t} i [] h = Sound-pure tt (λ ck p. (t, p))
  Sound-put_keys i ((k, v) ∷ l) h =
      Sound-then (Sound-put_key i k v (h k v (inl (refl, refl))))
        λ x. Sound-put_keys i l (λ j w a. h j w (inr a))

  -- The end of a check that has written: the new values are remembered.
  pub Sound-written :
      {s t : Store} (i : ℕ) (l : List (Bytes × Bytes))
      → ((k : Bytes) → (t k ≡ s k) ⊎ ((has_key k luas ≡ false) × Pending k l))
      → IsWritten luas t i l
      → Sound (Holds store luas s t) (put_keys i l) (λ x ck. Ready ck)
  Sound-written i l owes h = Sound-imp (λ ck p. Owes-Holds owes p) (Sound-put_keys i l h)
