-- ===== src/Scheduler/Apart.antt =====
-- scheduler/pkg/plugin.go: the pods of a node that is filled under the filter.
use undermoon_operator.Prelude.{
  ℕ, ◌/◌, ◌≡◌, ◌≢◌, ◌↔◌, refl, sym, ap, ◌∙◌, arith, Option, none, some, List, [], ◌∷◌, ◌++◌, Bytes,
  bytes_eq, bytes_eq_self, Bool-cases, inl, inr, eq_of_bytes_eq, true, false,
}
use undermoon_operator.Scheduler.{
  Pod, success, label, service_key, name_key, storage_service, is_value, get_pod_index, is_shard,
  in_the_way, filter_loop, filter_storage, filter,
}

-- What a pod is: a storage pod of a cluster in a namespace, with its index.
pub record IsStorage (p : Pod) (namespace undermoon_name : Bytes) (i : ℕ) : Type 0 where
  pub in_namespace : p.namespace ≡ namespace
  pub service : label service_key p.labels ≡ some storage_service
  pub cluster : label name_key p.labels ≡ some undermoon_name
  pub numbered : get_pod_index p.name ≡ some i

-- No two storage pods of one cluster that share a shard.
abbrev pub IsApart : Pod → Pod → Type 0
IsApart p q =
    (namespace undermoon_name : Bytes) (i j : ℕ)
    → IsStorage p namespace undermoon_name i
    → IsStorage q namespace undermoon_name j
    → i / 2 ≢ j / 2

abbrev pub AllApart : Pod → List Pod → Type 0
AllApart p [] = Unit
AllApart p (q ∷ node) = IsApart p q × AllApart p node

abbrev pub IsSpread : List Pod → Type 0
IsSpread [] = Unit
IsSpread (p ∷ node) = AllApart p node × IsSpread node

-- The pods that a node can come to hold: pods are added when the filter lets them, and any pod can
-- go.
pub data Placed : List Pod → Type 0 where
  empty : Placed []
  bound : (p : Pod) (node : List Pod) → Placed node → filter p node ≡ success → Placed (p ∷ node)
  gone :
      (p : Pod) (before after : List Pod) → Placed (before ++ p ∷ after) → Placed (before ++ after)

way-IsStorage :
    (q : Pod) (namespace undermoon_name : Bytes) (i j : ℕ)
    → IsStorage q namespace undermoon_name j
    → i / 2 ≡ j / 2
    → in_the_way namespace undermoon_name i q ≡ true
unfolding in_the_way is_value is_shard
way-IsStorage q namespace undermoon_name i j s h = ground (
  arith,
  s.in_namespace,
  s.service,
  s.cluster,
  s.numbered,
  bytes_eq_self namespace,
  bytes_eq_self undermoon_name,
  bytes_eq_self storage_service,
)

filter_loop-success :
    (namespace undermoon_name : Bytes) (i : ℕ) (q : Pod) (node : List Pod)
    → filter_loop namespace undermoon_name i (q ∷ node) ≡ success
    → (in_the_way namespace undermoon_name i q ≡ false)
      × (filter_loop namespace undermoon_name i node ≡ success)
unfolding filter_loop
filter_loop-success namespace undermoon_name i q node h = ground arith

some_inj : {A : Type 0} {a b : A} → some a ≡ some b → a ≡ b
some_inj h = ground (arith, h)

way-IsApart :
    (p q : Pod) (namespace undermoon_name : Bytes) (i : ℕ)
    → IsStorage p namespace undermoon_name i
    → in_the_way namespace undermoon_name i q ≡ false
    → IsApart p q
way-IsApart p q namespace undermoon_name i s h namespace' undermoon_name' i' j s' t e =
    false-or-true (
      sym h
      ∙ ap₃ (sym s.in_namespace ∙ s'.in_namespace) (some_inj (sym s.cluster ∙ s'.cluster))
          (some_inj (sym s.numbered ∙ s'.numbered))
      ∙ way-IsStorage q namespace' undermoon_name' i' j t e)
  where
    false-or-true : false ≡ true → ⊥
    false-or-true f = ground (arith, f)

    ap₃ :
        namespace ≡ namespace'
        → undermoon_name ≡ undermoon_name'
        → i ≡ i'
        → in_the_way namespace undermoon_name i q ≡ in_the_way namespace' undermoon_name' i' q
    ap₃ a b c = cc

filter_loop-AllApart :
    (p : Pod) (namespace undermoon_name : Bytes) (i : ℕ) (node : List Pod)
    → IsStorage p namespace undermoon_name i
    → filter_loop namespace undermoon_name i node ≡ success
    → AllApart p node
filter_loop-AllApart p namespace undermoon_name i [] s h = tt
filter_loop-AllApart p namespace undermoon_name i (q ∷ node) s h =
    let rest = filter_loop-success namespace undermoon_name i q node h in
    (
      way-IsApart p q namespace undermoon_name i s rest.0,
      filter_loop-AllApart p namespace undermoon_name i node s rest.1,
    )

if_storage-AllApart :
    (p : Pod) (node : List Pod)
    → ((namespace undermoon_name : Bytes) (i : ℕ)
        → IsStorage p namespace undermoon_name i
        → AllApart p node)
    → AllApart p node
if_storage-AllApart p [] h = tt
if_storage-AllApart p (q ∷ node) h = (
  λ namespace undermoon_name i j s t.
      (h namespace undermoon_name i s).0 namespace undermoon_name i j s t,
  if_storage-AllApart p node (λ namespace undermoon_name i s. (h namespace undermoon_name i s).1),
)

filter-storage :
    (p : Pod) (node : List Pod) (namespace undermoon_name : Bytes) (i : ℕ)
    → IsStorage p namespace undermoon_name i
    → filter p node ≡ filter_loop namespace undermoon_name i node
unfolding filter filter_storage is_value
filter-storage p node namespace undermoon_name i s =
    ground (arith, s.in_namespace, s.service, s.cluster, s.numbered, bytes_eq_self storage_service)

filter-AllApart : (p : Pod) (node : List Pod) → filter p node ≡ success → AllApart p node
filter-AllApart p node h = if_storage-AllApart p node (λ namespace undermoon_name i s.
    filter_loop-AllApart p namespace undermoon_name i node s
      (sym (filter-storage p node namespace undermoon_name i s) ∙ h))

AllApart-remove :
    (p q : Pod) (before after : List Pod)
    → AllApart p (before ++ q ∷ after)
    → AllApart p (before ++ after)
AllApart-remove p q [] after h = h.1
AllApart-remove p q (b ∷ before) after h = (h.0, AllApart-remove p q before after h.1)

IsSpread-remove :
    (q : Pod) (before after : List Pod)
    → IsSpread (before ++ q ∷ after)
    → IsSpread (before ++ after)
IsSpread-remove q [] after h = h.1
IsSpread-remove q (b ∷ before) after h =
    (AllApart-remove b q before after h.0, IsSpread-remove q before after h.1)

-- On a node that pods join only when the filter answers with success, and leave at any time, no
-- two storage pods of the same cluster and namespace have indices of the same shard.
pub Placed-IsSpread : (node : List Pod) → Placed node → IsSpread node
Placed-IsSpread _ empty = tt
Placed-IsSpread _ (bound p node placed h) = (filter-AllApart p node h, Placed-IsSpread node placed)
Placed-IsSpread _ (gone p before after placed) =
    IsSpread-remove p before after (Placed-IsSpread (before ++ p ∷ after) placed)

is_value-some : (o : Option Bytes) (v : Bytes) → is_value o v ≡ true → o ≡ some v
unfolding is_value
is_value-some none v h = ground (arith, h)
is_value-some (some u) v h = ap some (eq_of_bytes_eq u v h)

is_shard-some :
    (i : ℕ) (o : Option ℕ) → is_shard i o ≡ true → (j : ℕ) × (o ≡ some j) × (i / 2 ≡ j / 2)
unfolding is_shard
is_shard-some i none h = ground (arith, h)
is_shard-some i (some j) h = (j, refl, ground (arith, h))

way-found :
    (namespace undermoon_name : Bytes) (i : ℕ) (q : Pod)
    → in_the_way namespace undermoon_name i q ≡ true
    → (bytes_eq namespace q.namespace ≡ true)
      × (is_value (label name_key q.labels) undermoon_name ≡ true)
      × (is_value (label service_key q.labels) storage_service ≡ true)
      × (is_shard i (get_pod_index q.name) ≡ true)
unfolding in_the_way
way-found namespace undermoon_name i q h = ground (arith, h)

apart-free :
    (p q : Pod) (namespace undermoon_name : Bytes) (i : ℕ)
    → IsStorage p namespace undermoon_name i
    → IsApart p q
    → in_the_way namespace undermoon_name i q ≡ true
    → ⊥
apart-free p q namespace undermoon_name i s h e =
    let found = way-found namespace undermoon_name i q e in
    let (j, numbered, same) = is_shard-some i (get_pod_index q.name) found.3 in
    let t : IsStorage q namespace undermoon_name j = record {
      in_namespace = sym (eq_of_bytes_eq namespace q.namespace found.0);
      service = is_value-some (label service_key q.labels) storage_service found.2;
      cluster = is_value-some (label name_key q.labels) undermoon_name found.1;
      numbered = numbered;
    } in
    h namespace undermoon_name i j s t same

filter_loop-free :
    (p : Pod) (namespace undermoon_name : Bytes) (i : ℕ) (node : List Pod)
    → IsStorage p namespace undermoon_name i
    → AllApart p node
    → filter_loop namespace undermoon_name i node ≡ success
unfolding filter_loop
filter_loop-free p namespace undermoon_name i [] s h = refl
filter_loop-free p namespace undermoon_name i (q ∷ node) s h =
    elim (Bool-cases (in_the_way namespace undermoon_name i q)) [
      | inl way ↦ absurd (apart-free p q namespace undermoon_name i s h.0 way)
      | inr free ↦ rw free (filter_loop-free p namespace undermoon_name i node s h.1)
    ]

-- For a storage pod with an index and a cluster, the filter answers with success exactly when no
-- pod of the node is a storage pod of the same shard, cluster and namespace.
pub filter-success_iff :
    (p : Pod) (node : List Pod) (namespace undermoon_name : Bytes) (i : ℕ)
    → IsStorage p namespace undermoon_name i
    → (filter p node ≡ success) ↔ AllApart p node
filter-success_iff p node namespace undermoon_name i s = (
  filter-AllApart p node,
  λ h.
      filter-storage p node namespace undermoon_name i s
      ∙ filter_loop-free p namespace undermoon_name i node s h,
)
