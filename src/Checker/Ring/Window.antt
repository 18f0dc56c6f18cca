-- ===== src/Checker/Ring/Window.antt =====
-- The cells of the ring buffer from an index on, going round at the capacity.
use mathlib.Core.Path.{ap₂}
use native.Mathlib.Decide.{dec_lt}
use native.Mathlib.Nat.{mod-add-mod, mod-eq_of_lt, mod-eq-sub-mod, mod_self}
use undermoon_operator.Prelude.{
  ℕ, zero, suc, ◌+◌, ◌-◌, ◌%◌, ◌≤◌, ◌<◌, ◌≡◌, ◌≢◌, refl, ap, sym, ◌∙◌, arith, Bytes, List, [], ◌∷◌,
  ◌++◌, length, get_or, set, take, drop,
}

pub drop-get_or :
    (xs : List Bytes) (i : ℕ) → i < length xs → drop i xs ≡ get_or xs i [] ∷ drop (suc i) xs
drop-get_or [] i h = absurd (omega arith)
drop-get_or (x ∷ xs) zero h = refl
drop-get_or (x ∷ xs) (suc i) h = drop-get_or xs i (omega arith)

pub drop-all : (xs : List Bytes) (i : ℕ) → length xs ≤ i → drop i xs ≡ []
drop-all [] zero h = refl
drop-all [] (suc i) h = refl
drop-all (x ∷ xs) zero h = absurd (omega arith)
drop-all (x ∷ xs) (suc i) h = drop-all xs i (omega arith)

pub get_or-set_self :
    (xs : List Bytes) (i : ℕ) (v : Bytes) → i < length xs → get_or (set xs i v) i [] ≡ v
get_or-set_self [] i v h = absurd (omega arith)
get_or-set_self (x ∷ xs) zero v h = refl
get_or-set_self (x ∷ xs) (suc i) v h = get_or-set_self xs i v (omega arith)

pub get_or-set_ne :
    (xs : List Bytes) (i j : ℕ) (v : Bytes) → i ≢ j → get_or (set xs i v) j [] ≡ get_or xs j []
get_or-set_ne [] i j v h = refl
get_or-set_ne (x ∷ xs) zero zero v h = absurd (h refl)
get_or-set_ne (x ∷ xs) zero (suc j) v h = refl
get_or-set_ne (x ∷ xs) (suc i) zero v h = refl
get_or-set_ne (x ∷ xs) (suc i) (suc j) v h = get_or-set_ne xs i j v (λ e. h (ap suc e))

-- The `n` cells of `buf` from index `i` on.
abbrev pub window : List Bytes → ℕ → ℕ → ℕ → List Bytes
window buf cap i zero = []
window buf cap i (suc n) = get_or buf i [] ∷ window buf cap ((i + 1) % cap) n

pub length-window : (buf : List Bytes) (cap i n : ℕ) → length (window buf cap i n) ≡ n
length-window buf cap i zero = refl
length-window buf cap i (suc n) = ap suc (length-window buf cap ((i + 1) % cap) n)

mod_below : (i cap : ℕ) → suc i < cap → (i + 1) % cap ≡ suc i
mod_below i cap h = ap (λ (a : ℕ). a % cap) {y = suc i} (omega arith) ∙ mod-eq_of_lt h

mod_at : (i cap : ℕ) → i + 1 ≡ cap → (i + 1) % cap ≡ 0
mod_at i cap h = rw h (mod_self cap)

-- A window that does not go round is a slice.
pub window-slice :
    (buf : List Bytes) (cap i n : ℕ)
    → length buf ≡ cap
    → i + n ≤ cap
    → window buf cap i n ≡ take n (drop i buf)
window-slice buf cap i zero hl hn = refl
window-slice buf cap i (suc zero) hl hn = rw (drop-get_or buf i (omega arith)) refl
window-slice buf cap i (suc (suc n)) hl hn = rw (drop-get_or buf i (omega arith)) (
    ap (λ (t : List Bytes). get_or buf i [] ∷ t)
      (ap (λ (j : ℕ). window buf cap j (suc n)) (mod_below i cap (omega arith))
        ∙ window-slice buf cap (suc i) (suc n) hl (omega arith)))

-- A window that goes round is the end of the buffer and its beginning.
pub window-wrap :
    (k : ℕ) (buf : List Bytes) (cap i n m : ℕ)
    → length buf ≡ cap
    → i + suc k ≡ cap
    → n ≤ i
    → m ≡ k + n
    → window buf cap i (suc m) ≡ drop i buf ++ take n buf
window-wrap zero buf cap i n m hl hk hn hm =
    rw (drop-get_or buf i (omega arith), drop-all buf (suc i) (omega arith))
      (ap (λ (t : List Bytes). get_or buf i [] ∷ t)
        (ap (λ (j : ℕ). window buf cap j m) (mod_at i cap (omega arith))
          ∙ ap (window buf cap 0) {y = n} (omega arith)
          ∙ window-slice buf cap 0 n hl (omega arith)))
window-wrap (suc k) buf cap i n zero hl hk hn hm = absurd (omega arith)
window-wrap (suc k) buf cap i n (suc m) hl hk hn hm = rw (drop-get_or buf i (omega arith)) (
    ap (λ (t : List Bytes). get_or buf i [] ∷ t)
      (ap (λ (j : ℕ). window buf cap j (suc m)) (mod_below i cap (omega arith))
        ∙ window-wrap k buf cap (suc i) n m hl (omega arith) (omega arith) (omega arith)))

-- Fewer steps than the capacity do not come back to the start.
round-ne : (i k cap : ℕ) → i < cap → suc k < cap → (i + suc k) % cap ≢ i
round-ne i k cap hi hk = elim (dec_lt (i + suc k) cap) [
  | yes p ↦ omega (arith, mod-eq_of_lt p)
  | no p ↦ omega (
    arith,
    mod-eq-sub-mod {n = i + suc k} {m = cap} (omega arith),
    mod-eq_of_lt {n = i + suc k - cap} {m = cap} (omega arith),
  )
]

-- Writing the cell just past a window extends the window by what is written.
pub window-set :
    (buf : List Bytes) (cap i n j : ℕ) (v : Bytes)
    → length buf ≡ cap
    → i < cap
    → n < cap
    → j ≡ (i + n) % cap
    → window (set buf j v) cap i (suc n) ≡ window buf cap i n ++ v ∷ []
window-set buf cap i zero j v hl hi hn hj =
    ap (λ (t : Bytes). t ∷ [])
      (ap (λ (a : ℕ). get_or (set buf a v) i []) {y = i}
          (hj ∙ ap (λ (a : ℕ). a % cap) {y = i} (omega arith) ∙ mod-eq_of_lt hi)
        ∙ get_or-set_self buf i v (omega arith))
window-set buf cap i (suc n) j v hl hi hn hj =
    ap₂ ◌∷◌ (get_or-set_ne buf j i v (λ e. round-ne i n cap hi hn (sym hj ∙ e)))
      (window-set buf cap ((i + 1) % cap) n j v hl (omega arith) (omega arith) (hj ∙ shift))
  where
    shift : (i + suc n) % cap ≡ ((i + 1) % cap + n) % cap
    shift = rw mod-add-mod (ap (λ (a : ℕ). a % cap) (omega arith))
