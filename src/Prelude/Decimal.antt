-- ===== src/Prelude/Decimal.antt =====
-- Go's `strconv` on decimal numbers, and the text after the last of a byte.
use Prim.Native.Nat.{ℕ, zero, suc, ◌+◌, ◌-◌, ◌*◌, ◌/◌, ◌%◌, ◌^◌, ◌≤◌, ◌<◌}
use mathlib.Core.Path.{◌≡◌, refl, ap, sym, ◌∙◌}
use mathlib.Core.Logic.{inl, inr, ◌≢◌}
use mathlib.Core.Bool.{true, false, ◌||◌}
use mathlib.Core.List.{[], ◌∷◌, ◌++◌, append-nil, append_assoc}
use native.Mathlib.Omega.{arith}
use undermoon_operator.Prelude.Tests.{◌==◌, leb, ltb, if◌then◌else◌, Bool-cases}
use undermoon_operator.Prelude.Text.{Bytes, has_byte, dec, dec_fuel, dec-no-byte, digit}

-- What `strconv.ParseInt(s, 10, 64)` finds; out of range it still returns the largest `int64`.
pub data Parsed : Type 0 where
  value : ℕ → Parsed
  bad_syntax out_of_range : Parsed

-- The digits that are left, with the value of those before.
pub parse_digits : ℕ → Bytes → Parsed
parse_digits n [] = if ltb n (2 ^ 63) then value n else out_of_range
parse_digits n (c ∷ cs) =
    let m : ℕ = n * 10 + (c - 48) in
    let rest = parse_digits m cs in
    if ltb c 48 || ltb 57 c then bad_syntax else if ltb m (2 ^ 64) then rest else out_of_range

-- The callers cut the text after a minus, so that no minus is left to read.
unfoldable pub parse_int : Bytes → Parsed
unfolding parse_digits
parse_int [] = bad_syntax
parse_int (c ∷ []) = if c == 43 then bad_syntax else parse_digits 0 (c ∷ [])
parse_int (c ∷ d ∷ cs) = if c == 43 then parse_digits 0 (d ∷ cs) else parse_digits 0 (c ∷ d ∷ cs)

-- `s[strings.LastIndex(s, c)+1:]`
unfoldable pub after_last : ℕ → Bytes → Bytes
after_last c [] = []
after_last c (x ∷ xs) =
    let rest = after_last c xs in if has_byte c xs then rest else if x == c then xs else x ∷ xs

step-digits :
    (n d : ℕ) (rest : Bytes)
    → d ≤ 9
    → n * 10 + d < 2 ^ 63
    → parse_digits n (digit d ∷ rest) ≡ parse_digits (n * 10 + d) rest
unfolding parse_digits
step-digits n d rest hd h = ground (arith, ap (λ (k : ℕ). parse_digits k rest) (back n d))
  where
    back : (n d : ℕ) → n * 10 + (d + 48 - 48) ≡ n * 10 + d
    back n d = omega arith

parse_digits-dec_fuel :
    (fuel n : ℕ) (rest : Bytes)
    → n < fuel
    → n < 2 ^ 63
    → parse_digits 0 (dec_fuel fuel n ++ rest) ≡ parse_digits n rest
unfolding dec_fuel
parse_digits-dec_fuel zero n rest hf h = absurd (omega arith)
parse_digits-dec_fuel (suc fuel) n rest hf h = elim (Bool-cases (leb n 9)) [
  | inl small ↦ rw small (
      step-digits 0 n rest (ground arith) (omega arith)
      ∙ ap (λ (k : ℕ). parse_digits k rest) {x = 0 * 10 + n} {y = n} (omega arith))
  | inr large ↦ rw large (
      ap (parse_digits 0) (append_assoc (dec_fuel fuel (n / 10)) (digit (n % 10) ∷ []) rest)
      ∙ parse_digits-dec_fuel fuel (n / 10) (digit (n % 10) ∷ rest) (ground arith) (omega arith)
      ∙ step-digits (n / 10) (n % 10) rest (omega arith) (omega arith)
      ∙ ap (λ (k : ℕ). parse_digits k rest) {x = n / 10 * 10 + n % 10} {y = n} (omega arith))
]

parse_int-digits : (s : Bytes) → s ≢ [] → has_byte 43 s ≡ false → parse_int s ≡ parse_digits 0 s
unfolding parse_int has_byte
parse_int-digits [] ne h = absurd (ne refl)
parse_int-digits (c ∷ []) ne h = ground arith
parse_int-digits (c ∷ d ∷ cs) ne h = ground arith

dec-ne-nil : (n : ℕ) → dec n ≢ []
unfolding dec dec_fuel
dec-ne-nil n = elim (Bool-cases (leb n 9)) [
  | inl small ↦ rw small (ground arith)
  | inr large ↦ rw large (snoc-ne-nil (dec_fuel n (n / 10)) (digit (n % 10)))
]
  where
    snoc-ne-nil : (xs : Bytes) (x : ℕ) → xs ++ x ∷ [] ≢ []
    snoc-ne-nil [] x = ground arith
    snoc-ne-nil (y ∷ ys) x = ground arith

-- What `%d` prints, `ParseInt` reads back, up to the largest `int64`.
pub parse_int-dec : (n : ℕ) → n < 2 ^ 63 → parse_int (dec n) ≡ value n
unfolding dec
parse_int-dec n h =
    parse_int-digits (dec n) (dec-ne-nil n) (dec-no-byte 43 n (omega arith))
    ∙ ap (parse_digits 0) (sym (append-nil (dec n)))
    ∙ parse_digits-dec_fuel (suc n) n [] (omega arith) h
    ∙ last_step n h
  where
    last_step : (n : ℕ) → n < 2 ^ 63 → parse_digits n [] ≡ value n
    last_step n h = unfold parse_digits in ground arith

has_byte-past : (c : ℕ) (pre suf : Bytes) → has_byte c (pre ++ c ∷ suf) ≡ true
unfolding has_byte
has_byte-past c [] suf = ground arith
has_byte-past c (x ∷ pre) suf = ground (arith, has_byte-past c pre suf)

-- What stands behind the last of a byte.
pub after_last-append :
    (c : ℕ) (pre suf : Bytes) → has_byte c suf ≡ false → after_last c (pre ++ c ∷ suf) ≡ suf
unfolding after_last
after_last-append c [] suf h = ground arith
after_last-append c (x ∷ pre) suf h =
    ground (arith, after_last-append c pre suf h, has_byte-past c pre suf)
