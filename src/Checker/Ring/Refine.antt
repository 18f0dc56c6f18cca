-- ===== src/Checker/Ring/Refine.antt =====
-- checker/pkg/monitor.go: the ring buffer as a log that keeps its last `cap - 1` items.
use mathlib.Core.List.{append-nil, append_assoc}
use mathlib.Core.Option
use native.Mathlib.Decide.{ℕ_discrete}
use undermoon_operator.Prelude.{
  ℕ, zero, suc, ◌+◌, ◌-◌, ◌≤◌, ◌<◌, ◌≡◌, refl, ap, sym, ◌∙◌, arith, Bytes, List, [], ◌∷◌, ◌++◌,
  length, drop, some, Option, length-set, length-append, length-drop,
}
use undermoon_operator.Checker.Ring.{RingBuf, len, evict, write_item, add, content, new_ring_buf}
use undermoon_operator.Checker.Ring.Bounds.{
  IsValid, evict-IsValid, len-lt-cap, new_ring_buf-IsValid,
}
use undermoon_operator.Checker.Ring.Content.{
  content-window, length-content, evict-full, len-evict-full, evict_room, content-evict, written,
  content-written,
}
use undermoon_operator.Checker.Ring.Window.{window, drop-all}

-- The last `n` items of a list.
abbrev pub last : ℕ → List Bytes → List Bytes
last n xs = drop (length xs - n) xs

drop-append_lt : (k : ℕ) (xs ys : List Bytes) → k ≤ length xs → drop k (xs ++ ys) ≡ drop k xs ++ ys
drop-append_lt zero xs ys h = refl
drop-append_lt (suc k) [] ys h = absurd (omega arith)
drop-append_lt (suc k) (x ∷ xs) ys h = drop-append_lt k xs ys (omega arith)

last-append_short :
    (n : ℕ) (xs : List Bytes) (x : Bytes) → length xs < n → last n (xs ++ x ∷ []) ≡ xs ++ x ∷ []
last-append_short n xs x h =
    ap (λ (k : ℕ). drop k (xs ++ x ∷ [])) {x = length (xs ++ x ∷ []) - n} {y = 0}
      (omega (arith, length-append xs (x ∷ [])))

last-append_full :
    (n : ℕ) (xs : List Bytes) (x : Bytes)
    → length xs ≡ n
    → 0 < n
    → last n (xs ++ x ∷ []) ≡ drop 1 xs ++ x ∷ []
last-append_full n xs x h p =
    ap (λ (k : ℕ). drop k (xs ++ x ∷ [])) {x = length (xs ++ x ∷ []) - n} {y = 1}
      (omega (arith, length-append xs (x ∷ [])))
    ∙ drop-append_lt 1 xs (x ∷ []) (omega arith)

write_item_lem :
    (r : RingBuf) (item : Bytes) → IsValid r → write_item r item ≡ some (written r item)
unfolding write_item
write_item_lem r item v = ground arith

written-IsValid : (r : RingBuf) (item : Bytes) → IsValid r → IsValid (written r item)
written-IsValid r item v = ground (arith, length-set r.buf r.finish item)

-- One `add`: it does not panic, keeps the invariant, and keeps the last `cap - 1` items.
pub add_lem :
    (r : RingBuf) (item : Bytes)
    → IsValid r
    → 1 < r.cap
    → (r' : RingBuf) × (add r item ≡ some r')
      × IsValid r'
      × (r'.cap ≡ r.cap)
      × (content r' ≡ last (r.cap - 1) (content r ++ item ∷ []))
unfolding add
add_lem r item v h = elim (ℕ_discrete (len r + 1) r.cap) [
  | yes full ↦
      let e = evict r in
      let ev : IsValid e = evict-IsValid v in
      let ec : e.cap ≡ r.cap = ap (λ (x : RingBuf). x.cap) (evict-full r full) in
      let w = written-IsValid e item ev in
      (
        written e item,
        write_item_lem e item ev,
        w,
        ec,
        content-written e item ev (omega (arith, len-evict-full r v h full, ec)) w
            ∙ ap (λ (t : List Bytes). t ++ item ∷ []) (content-evict r v h full)
            ∙ sym (
                last-append_full (r.cap - 1) (content r) item (omega (arith, length-content r v))
                  (omega arith)),
      )
  | no room ↦
      let w = written-IsValid r item v in
      (
        written r item,
        ap (λ (e : RingBuf). write_item e item) (evict_room r room) ∙ write_item_lem r item v,
        w,
        refl,
        content-written r item v (omega (arith, len-lt-cap r v)) w
            ∙ sym (
                last-append_short (r.cap - 1) (content r) item
                  (omega (arith, length-content r v, len-lt-cap r v))),
      )
]

-- The calls of `add` for a stream of lines; `none` if one of them panics.
abbrev pub add_all : RingBuf → List Bytes → Option RingBuf
add_all r [] = some r
add_all r (x ∷ xs) = Option.bind (add r x) (λ r'. add_all r' xs)

drop-drop : (i j : ℕ) (xs : List Bytes) → drop i (drop j xs) ≡ drop (j + i) xs
drop-drop i zero xs = ap (λ (k : ℕ). drop k xs) {y = 0 + i} (omega arith)
drop-drop zero (suc j) [] = sym (drop-all [] (suc j + 0) (omega arith))
drop-drop (suc i) (suc j) [] = sym (drop-all [] (suc j + suc i) (omega arith))
drop-drop i (suc j) (x ∷ xs) =
    drop-drop i j xs
    ∙ ap (λ (k : ℕ). drop k (x ∷ xs)) {x = suc (j + i)} {y = suc j + i} (omega arith)

last-last :
    (n : ℕ) (xs : List Bytes) (x : Bytes) → last n (last n xs ++ x ∷ []) ≡ last n (xs ++ x ∷ [])
last-last n xs x =
    let k : ℕ = length xs - n in
    let ys : List Bytes = drop k xs ++ x ∷ [] in
    ap (λ (t : List Bytes). drop (length ys - n) t) {y = drop k (xs ++ x ∷ [])}
      (sym (drop-append_lt k xs (x ∷ []) (omega arith)))
    ∙ drop-drop (length ys - n) k (xs ++ x ∷ [])
    ∙ ap (λ (j : ℕ). drop j (xs ++ x ∷ []))
        (omega
          (arith, length-append (drop k xs) (x ∷ []), length-drop k xs, length-append xs (x ∷ [])))

add_all-from :
    (items : List Bytes) (seen : List Bytes) (r : RingBuf)
    → IsValid r
    → 1 < r.cap
    → content r ≡ last (r.cap - 1) seen
    → (r' : RingBuf) × (add_all r items ≡ some r')
      × IsValid r'
      × (content r' ≡ last (r.cap - 1) (seen ++ items))
unfolding Option.bind
add_all-from [] seen r v h e = (r, refl, v, rw append-nil e)
add_all-from (x ∷ items) seen r v h e =
    let step = add_lem r x v h in
    let rest = add_all-from items (seen ++ x ∷ []) step.0 step.2 (omega (arith, step.3)) (
      step.4
      ∙ ap (λ (t : List Bytes). last (r.cap - 1) (t ++ x ∷ [])) e
      ∙ last-last (r.cap - 1) seen x
      ∙ ap (λ (k : ℕ). last (k - 1) (seen ++ x ∷ [])) (sym step.3)) in
    (
      rest.0,
      ap (λ (o : Option RingBuf). Option.bind o (λ (q : RingBuf). add_all q items)) step.1 ∙ rest.1,
      rest.2,
      rest.3
          ∙ ap (λ (k : ℕ). last (k - 1) ((seen ++ x ∷ []) ++ items)) step.3
          ∙ ap (last (r.cap - 1)) (append_assoc seen (x ∷ []) items),
    )

len-new : (cap : ℕ) → len (new_ring_buf cap) ≡ 0
unfolding len new_ring_buf
len-new cap = ground arith

-- From `newRingBuf(cap)` with `cap` above one, any stream of lines can be added without a panic,
-- and `data()` then returns the last `cap - 1` lines of the stream in order.
pub add_all-new :
    (cap : ℕ) (items : List Bytes)
    → 1 < cap
    → (r : RingBuf) × (add_all (new_ring_buf cap) items ≡ some r)
      × IsValid r
      × (content r ≡ last (cap - 1) items)
unfolding new_ring_buf
add_all-new cap items h =
    let start : RingBuf = new_ring_buf cap in
    let v : IsValid start = new_ring_buf-IsValid cap (omega arith) in
    add_all-from items [] start v h (
      content-window start v
      ∙ ap (λ (n : ℕ). window start.buf cap 0 n) {y = 0} (len-new cap)
      ∙ last_nil (cap - 1))
  where
    last_nil : (n : ℕ) → [] ≡ last n []
    last_nil n = sym (drop-all [] (0 - n) (omega arith))
