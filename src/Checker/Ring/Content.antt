-- ===== src/Checker/Ring/Content.antt =====
-- checker/pkg/monitor.go: what `data()` returns, as a window of the cells, before and after a write.
use mathlib.Core.Path.{ap₂}
use mathlib.Core.List.{append-nil}
use native.Mathlib.Decide.{ℕ_discrete}
use native.Mathlib.Nat.{mod-eq_of_lt, mod-eq-sub-mod, mod_self}
use undermoon_operator.Prelude.{
  ℕ, zero, suc, ◌+◌, ◌-◌, ◌%◌, ◌≤◌, ◌<◌, ◌≡◌, ◌≢◌, inl, inr, false, refl, ap, sym, ◌∙◌, arith,
  Bytes, List, [], ◌∷◌, ◌++◌, length, take, drop, replicate, length-replicate, Bool-cases,
  length-take, length-drop, set, leb, ◌==◌, if◌then◌else◌,
}
use undermoon_operator.Checker.Ring.{RingBuf, len, evict, content, copy, copy_at, slice}
use undermoon_operator.Checker.Ring.Bounds.{IsValid, evict-IsValid}
use undermoon_operator.Checker.Ring.Window.{
  window, window-slice, window-wrap, window-set, length-window, drop-all,
}

take-all : (n : ℕ) (xs : List Bytes) → length xs ≤ n → take n xs ≡ xs
take-all zero [] h = refl
take-all zero (x ∷ xs) h = absurd (omega arith)
take-all (suc n) [] h = refl
take-all (suc n) (x ∷ xs) h = ap (λ (t : List Bytes). x ∷ t) (take-all n xs (omega arith))

-- A copy over a slice of the same length replaces it.
copy-full : (d s : List Bytes) → length d ≡ length s → copy d s ≡ s
copy-full d s h =
    ap₂ ◌++◌ (take-all (length d) s (omega arith)) (drop-all d (length s) (omega arith))
    ∙ append-nil s

take-append : (k : ℕ) (xs ys : List Bytes) → length xs ≡ k → take k (xs ++ ys) ≡ xs
take-append zero [] ys h = refl
take-append zero (x ∷ xs) ys h = absurd (omega arith)
take-append (suc k) [] ys h = absurd (omega arith)
take-append (suc k) (x ∷ xs) ys h =
    ap (λ (t : List Bytes). x ∷ t) (take-append k xs ys (omega arith))

drop-append : (k : ℕ) (xs ys : List Bytes) → length xs ≡ k → drop k (xs ++ ys) ≡ ys
drop-append zero [] ys h = refl
drop-append zero (x ∷ xs) ys h = absurd (omega arith)
drop-append (suc k) [] ys h = absurd (omega arith)
drop-append (suc k) (x ∷ xs) ys h = drop-append k xs ys (omega arith)

-- The two copies of a full buffer put the second slice behind the first.
copy_two :
    (d s t : List Bytes) → length d ≡ length s + length t → copy_at (length s) (copy d s) t ≡ s ++ t
copy_two d s t h =
    ap₂ ◌++◌
      (take-append (length s) (take (length d) s) (drop (length s) d)
          (omega (arith, length-take (length d) s))
        ∙ take-all (length d) s (omega arith))
      (ap (λ (x : List Bytes). copy x t)
          (drop-append (length s) (take (length d) s) (drop (length s) d)
            (omega (arith, length-take (length d) s)))
        ∙ copy-full (drop (length s) d) t (omega (arith, length-drop (length s) d)))

length-slice : (xs : List Bytes) (lo hi : ℕ) → hi ≤ length xs → length (slice xs lo hi) ≡ hi - lo
length-slice xs lo hi h = omega (arith, length-take (hi - lo) (drop lo xs), length-drop lo xs)

slice-drop : (xs : List Bytes) (lo hi : ℕ) → length xs ≡ hi → slice xs lo hi ≡ drop lo xs
slice-drop xs lo hi h = take-all (hi - lo) (drop lo xs) (omega (arith, length-drop lo xs))

-- The window of a buffer that goes round, in the terms of `content`.
window-round :
    (buf : List Bytes) (cap start finish : ℕ)
    → length buf ≡ cap
    → start < cap
    → finish < start
    → window buf cap start (finish + cap - start) ≡ slice buf start cap ++ slice buf 0 finish
window-round buf cap start finish hl hs hf =
    ap (window buf cap start) {y = suc (cap - start - 1 + finish)} (omega arith)
    ∙ window-wrap (cap - start - 1) buf cap start finish (cap - start - 1 + finish) hl (omega arith)
        (omega arith) refl
    ∙ ap₂ ◌++◌ (sym (slice-drop buf start cap hl))
        (ap (λ (k : ℕ). take k buf) {y = finish - 0} (omega arith))

suc-eq-zero : (n : ℕ) → (suc n == 0) ≡ false
suc-eq-zero n = ground arith

-- `data()` when the items go round, whether or not any lies at the beginning.
content-round :
    (buf : List Bytes) (cap start finish : ℕ)
    → length buf ≡ cap
    → start < cap
    → finish < start
    → (let d1 = copy (replicate (finish + cap - start) []) (slice buf start cap) in
        if finish == 0 then d1 else copy_at (cap - start) d1 (slice buf 0 finish))
      ≡ slice buf start cap ++ slice buf 0 finish
content-round buf cap start zero hl hs hf =
    copy-full (replicate (0 + cap - start) []) (slice buf start cap)
      (omega (arith, length-replicate {A = Bytes} (0 + cap - start) [], length-slice buf start cap))
    ∙ sym (append-nil (slice buf start cap))
content-round buf cap start (suc n) hl hs hf =
    let d : List Bytes = replicate (suc n + cap - start) [] in
    rw (suc-eq-zero n) (
      ap (λ (k : ℕ). copy_at k (copy d (slice buf start cap)) (slice buf 0 (suc n)))
        {x = cap - start} {y = length (slice buf start cap)}
        (omega (arith, length-slice buf start cap))
      ∙ copy_two d (slice buf start cap) (slice buf 0 (suc n)) (
          omega (
            arith,
            length-replicate {A = Bytes} (suc n + cap - start) [],
            length-slice buf start cap,
            length-slice buf 0 (suc n),
          )))

-- `content` is the window of `len` cells from `start`.
pub content-window : (r : RingBuf) → IsValid r → content r ≡ window r.buf r.cap r.start (len r)
unfolding content
content-window r v = elim (Bool-cases (leb r.start r.finish)) [
  | inl le ↦ rw le (
      copy-full (replicate (r.finish - r.start) []) (slice r.buf r.start r.finish) (
        omega (
          arith,
          length-replicate {A = Bytes} (r.finish - r.start) [],
          length-slice r.buf r.start r.finish,
        ))
      ∙ sym (window-slice r.buf r.cap r.start (r.finish - r.start) v.storage (ground arith)))
  | inr gt ↦ rw gt (
      content-round r.buf r.cap r.start r.finish v.storage v.start_in (ground arith)
      ∙ sym (window-round r.buf r.cap r.start r.finish v.storage v.start_in (ground arith)))
]

pub length-content : (r : RingBuf) → IsValid r → length (content r) ≡ len r
length-content r v = ap length (content-window r v) ∙ length-window r.buf r.cap r.start (len r)

-- The write position is `len` cells after the start.
finish-eq : (r : RingBuf) → IsValid r → r.finish ≡ (r.start + len r) % r.cap
unfolding len
finish-eq r v = elim (Bool-cases (leb r.start r.finish)) [
  | inl le ↦
      rw le
        (sym (ap (λ (a : ℕ). a % r.cap) {y = r.finish} (ground arith) ∙ mod-eq_of_lt v.finish_in))
  | inr gt ↦ rw gt (
      sym (
        ap (λ (a : ℕ). a % r.cap) {y = r.finish + r.cap} (ground arith)
        ∙ mod-eq-sub-mod {n = r.finish + r.cap} {m = r.cap} (omega arith)
        ∙ ap (λ (a : ℕ). a % r.cap) {y = r.finish} (omega arith)
        ∙ mod-eq_of_lt v.finish_in))
]

window-step :
    (buf : List Bytes) (cap i n m : ℕ)
    → n ≡ suc m
    → window buf cap ((i + 1) % cap) m ≡ drop 1 (window buf cap i n)
window-step buf cap i zero m h = absurd (omega arith)
window-step buf cap i (suc n) m h = ap (window buf cap ((i + 1) % cap)) {y = n} (omega arith)

pub evict-full :
    (r : RingBuf) → len r + 1 ≡ r.cap → evict r ≡ record r { start = (r.start + 1) % r.cap }
unfolding evict
evict-full r h = ground arith

len-next :
    (r : RingBuf)
    → IsValid r
    → 1 < r.cap
    → len r + 1 ≡ r.cap
    → suc (len (record r { start = (r.start + 1) % r.cap })) ≡ len r
unfolding len
len-next r v h full = elim (ℕ_discrete (r.start + 1) r.cap) [
  | yes e ↦ ground (arith, mod_self r.cap)
  | no n ↦ ground (arith, mod-eq_of_lt {n = r.start + 1} {m = r.cap})
]

pub len-evict-full :
    (r : RingBuf) → IsValid r → 1 < r.cap → len r + 1 ≡ r.cap → suc (len (evict r)) ≡ len r
len-evict-full r v h full =
    ap (λ (e : RingBuf). suc (len e)) (evict-full r full) ∙ len-next r v h full

pub evict_room : (r : RingBuf) → len r + 1 ≢ r.cap → evict r ≡ r
unfolding evict
evict_room r h = ground arith

-- Evicting from a full buffer drops the oldest item.
pub content-evict :
    (r : RingBuf)
    → IsValid r
    → 1 < r.cap
    → len r + 1 ≡ r.cap
    → content (evict r) ≡ drop 1 (content r)
content-evict r v h full =
    content-window (evict r) (evict-IsValid v)
    ∙ ap (λ (e : RingBuf). window e.buf e.cap e.start (len (evict r))) (evict-full r full)
    ∙ window-step r.buf r.cap r.start (len r) (len (evict r)) (sym (len-evict-full r v h full))
    ∙ ap (drop 1) (sym (content-window r v))

-- The buffer after the write, where there is room.
abbrev pub written : RingBuf → Bytes → RingBuf
written r item = record r { buf = set r.buf r.finish item; finish = (r.finish + 1) % r.cap }

pub len-written :
    (r : RingBuf) (item : Bytes)
    → IsValid r
    → len r + 1 < r.cap
    → len (written r item) ≡ suc (len r)
unfolding len
len-written r item v h = elim (ℕ_discrete (r.finish + 1) r.cap) [
  | yes e ↦ ground (arith, mod_self r.cap)
  | no n ↦ ground (arith, mod-eq_of_lt {n = r.finish + 1} {m = r.cap})
]

-- Where there is room, the item is appended.
pub content-written :
    (r : RingBuf) (item : Bytes)
    → IsValid r
    → len r + 1 < r.cap
    → IsValid (written r item)
    → content (written r item) ≡ content r ++ item ∷ []
content-written r item v h w =
    content-window (written r item) w
    ∙ ap (window (set r.buf r.finish item) r.cap r.start) (len-written r item v h)
    ∙ window-set r.buf r.cap r.start (len r) r.finish item v.storage v.start_in (omega arith)
        (finish-eq r v)
    ∙ ap (λ (t : List Bytes). t ++ item ∷ []) (sym (content-window r v))
