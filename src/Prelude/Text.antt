-- ===== src/Prelude/Text.antt =====
-- Go strings as lists of bytes: literals, equality, search, decimal printing.
use Prim.Native.Nat.{ℕ, zero, suc, ◌+◌, ◌/◌, ◌%◌, ◌<◌}
use Prim.Native.Char.{code}
use Prim.Native.String.{String}
use mathlib.Core.Path.{◌≡◌, refl}
use mathlib.Core.Logic.{◌⊎◌}
use mathlib.Core.Bool.{Bool, true, false, ◌&&◌}
use mathlib.Core.List.{List, [], ◌∷◌, ◌++◌}
use native.Mathlib.Omega.{arith}
use undermoon_operator.Prelude.Tests.{◌==◌, leb, if◌then◌else◌}

-- A Go string: its bytes.
abbrev pub Bytes : Type 0
Bytes = List ℕ

-- The bytes of an ASCII literal.
abbrev pub codes : String → Bytes
codes String.[] = []
codes (String.◌∷◌ c s) = code c ∷ codes s

-- `==` on strings.
unfoldable pub bytes_eq : Bytes → Bytes → Bool
bytes_eq [] [] = true
bytes_eq [] (y ∷ ys) = false
bytes_eq (x ∷ xs) [] = false
bytes_eq (x ∷ xs) (y ∷ ys) = x == y && bytes_eq xs ys

pub bytes_eq_self : (xs : Bytes) → bytes_eq xs xs ≡ true
unfolding bytes_eq
bytes_eq_self [] = refl
bytes_eq_self (x ∷ xs) = ground (arith, bytes_eq_self xs)

pub eq_of_bytes_eq : (xs ys : Bytes) → bytes_eq xs ys ≡ true → xs ≡ ys
unfolding bytes_eq
eq_of_bytes_eq [] [] h = refl
eq_of_bytes_eq [] (y ∷ ys) h = ground arith
eq_of_bytes_eq (x ∷ xs) [] h = ground arith
eq_of_bytes_eq (x ∷ xs) (y ∷ ys) h = ground (arith, eq_of_bytes_eq xs ys)

-- `strings.Contains` of one byte.
unfoldable pub has_byte : ℕ → Bytes → Bool
has_byte c [] = false
has_byte c (x ∷ xs) = if x == c then true else has_byte c xs

-- The ASCII digit of a number below ten.
abbrev pub digit : ℕ → ℕ
digit n = n + 48

unfoldable pub dec_fuel : ℕ → ℕ → Bytes
dec_fuel zero n = []
dec_fuel (suc fuel) n =
    let front = dec_fuel fuel (n / 10) in
    if leb n 9 then digit n ∷ [] else front ++ digit (n % 10) ∷ []

-- `%d` of a number that is not negative. A number has at most as many digits as it counts.
unfoldable pub dec : ℕ → Bytes
unfolding dec_fuel
dec n = dec_fuel (suc n) n

pub has_byte-append :
    (c : ℕ) (xs ys : Bytes)
    → has_byte c xs ≡ false
    → has_byte c ys ≡ false
    → has_byte c (xs ++ ys) ≡ false
unfolding has_byte
has_byte-append c [] ys h k = k
has_byte-append c (x ∷ xs) ys h k = ground (arith, has_byte-append c xs ys)

dec_fuel-no-byte : (c fuel n : ℕ) → (57 < c) ⊎ (c < 48) → has_byte c (dec_fuel fuel n) ≡ false
unfolding dec_fuel has_byte
dec_fuel-no-byte c zero n h = refl
dec_fuel-no-byte c (suc fuel) n h = ground (
  arith,
  dec_fuel-no-byte c fuel (n / 10),
  has_byte-append c (dec_fuel fuel (n / 10)) (digit (n % 10) ∷ []),
)

-- A printed number holds no byte but digits.
pub dec-no-byte : (c n : ℕ) → (57 < c) ⊎ (c < 48) → has_byte c (dec n) ≡ false
unfolding dec
dec-no-byte c n h = dec_fuel-no-byte c (suc n) n h
