-- ===== src/Checker/Keys/Puts.antt =====
-- checker/pkg/kv.go: what the arguments of a write leave in the store and in the memory of the checker.
use undermoon_operator.Prelude.{
  List, [], ◌∷◌, Bytes, bytes_eq, eq_of_bytes_eq, bytes_eq_self, find, insert, find-insert, some,
  ◌≡◌, refl, ◌⊎◌, inl, inr, arith, map, if◌then◌else◌, Bool-cases, ◌∙◌,
}
use undermoon_operator.Checker.Client.Store.{Store, put, put_arguments, put_each, remove}
use undermoon_operator.Checker.Keys.Checks.{arguments, insert_all}
use undermoon_operator.Checker.Keys.Sound.{Among, has_key}

-- The list has an entry of the key.
abbrev pub Pending : Bytes → List (Bytes × Bytes) → Type 0
Pending k l = (w : Bytes) × Among k w l

pub put-cases :
    (j u : Bytes) (s : Store) (k : Bytes) → (put j u s k ≡ s k) ⊎ ((j ≡ k) × (put j u s k ≡ u))
unfolding put
put-cases j u s k = ground (arith, eq_of_bytes_eq j k)

pub put_arguments-cases :
    (news : List (Bytes × Bytes)) (s : Store) (k : Bytes)
    → (put_arguments (arguments news) s k ≡ s k) ⊎ Pending k news
unfolding put_arguments arguments
put_arguments-cases [] s k = inl refl
put_arguments-cases ((j, u) ∷ news) s k = elim (put_arguments-cases news (put j u s) k) [
  | inr (w, a) ↦ inr (w, inr a)
  | inl q ↦ elim (put-cases j u s k) [ inl p ↦ inl (q ∙ p) | inr (p, r) ↦ inr (u, inl (p, refl)) ]
]

pub find-insert_all :
    (news m : List (Bytes × Bytes)) (s : Store)
    → ((k v : Bytes) → find k m ≡ some v → s k ≡ v)
    → (k w : Bytes) → find k (insert_all news m) ≡ some w
    → put_arguments (arguments news) s k ≡ w
unfolding insert_all put_arguments arguments put
find-insert_all [] m s h k w q = h k w q
find-insert_all ((j, u) ∷ news) m s h k w q =
    find-insert_all news (insert j u m) (put j u s)
      (λ i v p. ground (arith, p, h i v, find-insert j i u m, eq_of_bytes_eq j i)) k w q

pub find-insert_all-cases :
    (news m : List (Bytes × Bytes)) (k w : Bytes)
    → find k (insert_all news m) ≡ some w
    → (find k m ≡ some w) ⊎ Pending k news
unfolding insert_all
find-insert_all-cases [] m k w h = inl h
find-insert_all-cases ((j, u) ∷ news) m k w h =
    elim (find-insert_all-cases news (insert j u m) k w h) [
      | inr (v, a) ↦ inr (v, inr a)
      | inl q ↦ elim (Bool-cases (bytes_eq j k)) [
        | inl p ↦ inr (u, inl (eq_of_bytes_eq j k p, refl))
        | inr p ↦ inl (ground (arith, find-insert j k u m))
      ]
    ]

find-insert_all_old :
    (news m : List (Bytes × Bytes)) (k v : Bytes)
    → find k m ≡ some v
    → (w : Bytes) × (find k (insert_all news m) ≡ some w)
unfolding insert_all
find-insert_all_old [] m k v h = (v, h)
find-insert_all_old ((j, u) ∷ news) m k v h = elim (Bool-cases (bytes_eq j k)) [
  | inl p ↦ find-insert_all_old news (insert j u m) k u (ground (arith, find-insert j k u m))
  | inr p ↦ find-insert_all_old news (insert j u m) k v (ground (arith, find-insert j k u m))
]

pub find-insert_all_new :
    (news m : List (Bytes × Bytes)) (k v : Bytes)
    → Among k v news
    → (w : Bytes) × (find k (insert_all news m) ≡ some w)
unfolding insert_all
find-insert_all_new [] m k v a = absurd a
find-insert_all_new ((j, u) ∷ news) m k v (inl (p, q)) =
    find-insert_all_old news (insert j u m) k u
      (ground (arith, find-insert j k u m, bytes_eq_self j))
find-insert_all_new ((j, u) ∷ news) m k v (inr a) = find-insert_all_new news (insert j u m) k v a

remove_empty : (keys : List Bytes) (s : Store) (k : Bytes) → s k ≡ [] → remove keys s k ≡ []
unfolding remove put
remove_empty [] s k h = h
remove_empty (j ∷ keys) s k h = remove_empty keys (put j [] s) k (ground (arith, h))

-- The entries of deleted keys.
abbrev pub emptied : List (Bytes × Bytes) → List (Bytes × Bytes)
emptied l = map (λ k. (k, [])) (map (λ kv. kv.0) l)

pub remove-cases :
    (l : List (Bytes × Bytes)) (s : Store) (k : Bytes)
    → (remove (map (λ kv. kv.0) l) s k ≡ s k) ⊎ (Pending k l × Pending k (emptied l))
unfolding remove
remove-cases [] s k = inl refl
remove-cases ((j, u) ∷ l) s k = elim (remove-cases l (put j [] s) k) [
  | inr ((w, a), (v, b)) ↦ inr ((w, inr a), (v, inr b))
  | inl q ↦ elim (put-cases j [] s k) [
    | inl r ↦ inl (q ∙ r)
    | inr (p, r) ↦ inr ((u, inl (p, refl)), ([], inl (p, refl)))
  ]
]

pub Among-emptied :
    (l : List (Bytes × Bytes)) (s : Store) (k w : Bytes)
    → Among k w (emptied l)
    → Pending k l × (remove (map (λ kv. kv.0) l) s k ≡ w)
unfolding remove put
Among-emptied [] s k w a = absurd a
Among-emptied ((j, u) ∷ l) s k w (inl (p, q)) = (
  (u, inl (p, refl)),
  remove_empty (map (λ kv. kv.0) l) (put j [] s) k (ground (arith, p, bytes_eq_self j)) ∙ q,
)
Among-emptied ((j, u) ∷ l) s k w (inr a) =
    let ((v, b), q) = Among-emptied l (put j [] s) k w a in ((v, inr b), q)

-- The script writes one value under all keys of a list, and nothing else.
pub put_each-cases :
    (keys : List Bytes) (v : Bytes) (s : Store) (k : Bytes)
    → put_each keys (map (λ j. v) keys) s k ≡ (if has_key k keys then v else s k)
unfolding put_each has_key put
put_each-cases [] v s k = refl
put_each-cases (j ∷ keys) v s k = ground (arith, put_each-cases keys v (put j v s) k)
