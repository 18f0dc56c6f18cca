-- ===== src/Checker/Tags.antt =====
-- checker/pkg/utils.go: a tag for each slot.
use undermoon_operator.Prelude.{
  ℕ, zero, suc, ◌+◌, ◌≤◌, ◌<◌, List, [], ◌∷◌, Bytes, Option, none, some, ◌==◌, not, if◌then◌else◌,
  length, true, ◌≡◌, ◌≢◌, refl, ◌⊎◌, inl, inr, arith, ltb, Bool-cases,
}
use undermoon_operator.Checker.Slot.{slot}

-- `tags[s] = tag`
unfoldable pub put_tag : ℕ → Bytes → (ℕ → Bytes) → ℕ → Bytes
put_tag s tag tags i = if i == s then tag else tags i

-- The loop of `newSlotTags`, with `total` for `slotNumber`, on the tags drawn; `none` is that it
-- still draws.
unfoldable pub fill_tags : ℕ → List Bytes → ℕ → (ℕ → Bytes) → Option (ℕ → Bytes)
unfolding put_tag
fill_tags total [] n tags = if n == total then some tags else none
fill_tags total (tag ∷ draws) n tags =
    let skipped = fill_tags total draws n tags in
    let filled = fill_tags total draws (suc n) (put_tag (slot tag) tag tags) in
    if n == total
    then some tags
    else if not (length (tags (slot tag)) == 0)
    then skipped
    else filled

-- With `slot_number` for `total`.
unfoldable pub new_slot_tags : ℕ → List Bytes → Option (ℕ → Bytes)
unfolding fill_tags
new_slot_tags total draws = fill_tags total draws 0 (λ s. [])

-- The slots below `m` that have a tag.
unfoldable pub count : ℕ → (ℕ → Bytes) → ℕ
count zero tags = 0
count (suc m) tags = (if length (tags m) == 0 then 0 else 1) + count m tags

count_le : (m : ℕ) (tags : ℕ → Bytes) → count m tags ≤ m
unfolding count
count_le zero tags = omega arith
count_le (suc m) tags = ground (arith, count_le m tags)

count-all : (m : ℕ) (tags : ℕ → Bytes) → ((s : ℕ) → s < m → length (tags s) ≢ 0) → count m tags ≡ m
unfolding count
count-all zero tags h = refl
count-all (suc m) tags h = ground (arith, h m, count-all m tags (λ s p. h s (omega arith)))

all-count : (m : ℕ) (tags : ℕ → Bytes) → count m tags ≡ m → (s : ℕ) → s < m → length (tags s) ≢ 0
unfolding count
all-count zero tags h s p = ground arith
all-count (suc m) tags h s p =
    ground (arith, h, p, count_le m tags, (λ (q : count m tags ≡ m). all-count m tags q s))

count-put_tag :
    (m s : ℕ) (tag : Bytes) (tags : ℕ → Bytes)
    → length (tags s) ≡ 0
    → length tag ≢ 0
    → count m (put_tag s tag tags) ≡ (if ltb s m then 1 else 0) + count m tags
unfolding count put_tag
count-put_tag zero s tag tags h k = ground arith
count-put_tag (suc m) s tag tags h k = ground (arith, count-put_tag m s tag tags)

-- A tag for the slot `s` is drawn, and all draws are tags of slots below `total`.
abbrev pub Drawn : ℕ → List Bytes → Type 0
Drawn s [] = ⊥
Drawn s (tag ∷ draws) = (slot tag ≡ s) ⊎ Drawn s draws

abbrev pub AllTags : ℕ → List Bytes → Type 0
AllTags total [] = Unit
AllTags total (tag ∷ draws) = ((slot tag < total) × (length tag ≢ 0)) × AllTags total draws

-- Each slot below `total` has a tag of its own.
abbrev pub IsFull : ℕ → (ℕ → Bytes) → Type 0
IsFull total tags = (s : ℕ) → s < total → (length (tags s) ≢ 0) × (slot (tags s) ≡ s)

-- What the loop keeps: `n` slots have a tag, each its own, and the others' are still to be drawn.
abbrev Loop : ℕ → List Bytes → ℕ → (ℕ → Bytes) → Type 0
Loop total draws n tags =
    (count total tags ≡ n)
    × ((s : ℕ) → length (tags s) ≢ 0 → slot (tags s) ≡ s)
    × AllTags total draws
    × ((s : ℕ) → s < total → (length (tags s) ≢ 0) ⊎ Drawn s draws)

Loop-put_tag :
    (total : ℕ) (tag : Bytes) (draws : List Bytes) (n : ℕ) (tags : ℕ → Bytes)
    → Loop total (tag ∷ draws) n tags
    → (length (tags (slot tag)) == 0) ≡ true
    → Loop total draws (suc n) (put_tag (slot tag) tag tags)
unfolding put_tag
Loop-put_tag total tag draws n tags (counted, own, (fit, fits), rest) q = (
  ground (arith, count-put_tag total (slot tag) tag tags),
  λ s r. ground (arith, r, own s),
  fits,
  λ s r. ground (arith, rest s r),
)

fill_tags-IsFull :
    (total : ℕ) (draws : List Bytes) (n : ℕ) (tags : ℕ → Bytes)
    → Loop total draws n tags
    → (full : ℕ → Bytes) × (fill_tags total draws n tags ≡ some full) × IsFull total full
unfolding fill_tags
fill_tags-IsFull total [] n tags (counted, own, fits, rest) =
    let given : (s : ℕ) → s < total → length (tags s) ≢ 0 = λ s p. ground (arith, rest s p) in
    (tags, ground (arith, count-all total tags given), λ s p. (given s p, own s (given s p)))
fill_tags-IsFull total (tag ∷ draws) n tags (counted, own, (fit, fits), rest) =
    elim (Bool-cases (n == total)) [
      | inl p ↦
          let given : (s : ℕ) → s < total → length (tags s) ≢ 0 =
            all-count total tags (ground arith) in
          (tags, ground arith, λ s q. (given s q, own s (given s q)))
      | inr p ↦ elim (Bool-cases (length (tags (slot tag)) == 0)) [
        | inr q ↦
            let (full, e, h) =
              fill_tags-IsFull total draws n tags
                (counted, own, fits, λ s r. ground (arith, rest s r)) in
            (full, ground arith, h)
        | inl q ↦
            let (full, e, h) =
              fill_tags-IsFull total draws (suc n) (put_tag (slot tag) tag tags)
                (Loop-put_tag total tag draws n tags (counted, own, (fit, fits), rest) q) in
            (full, ground arith, h)
      ]
    ]

count_empty : (m : ℕ) → count m (λ s. []) ≡ 0
unfolding count
count_empty zero = refl
count_empty (suc m) = ground (arith, count_empty m)

-- The search for tags ends once a tag of each slot below the number of slots has been drawn, where all
-- draws are tags of such slots and not empty: it ends with a tag for each slot, and it is a tag of this very slot.
pub new_slot_tags-IsFull :
    (total : ℕ) (draws : List Bytes)
    → AllTags total draws
    → ((s : ℕ) → s < total → Drawn s draws)
    → (full : ℕ → Bytes) × (new_slot_tags total draws ≡ some full) × IsFull total full
unfolding new_slot_tags
new_slot_tags-IsFull total draws fits drawn =
    fill_tags-IsFull total draws 0 (λ s. [])
      (count_empty total, λ s h. absurd (h refl), fits, λ s p. inr (drawn s p))
