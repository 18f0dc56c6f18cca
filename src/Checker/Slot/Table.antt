-- ===== src/Checker/Slot/Table.antt =====
-- checker/pkg/slot.go: the table of `crc16sum` against the bit-by-bit CRC-16 of polynomial 0x1021.
use Prim.Native.Nat.{bit_and, bit_xor}
use undermoon_operator.Prelude.{
  ℕ, zero, suc, ◌+◌, ◌*◌, ◌/◌, ◌%◌, ◌^◌, ◌<◌, ◌≡◌, refl, ap, ◌∙◌, Bool, true, ◌&&◌, arith, Bytes,
  [], ◌∷◌, codes, ltb, ◌==◌, ==_iff, if◌then◌else◌, get_or,
}
use undermoon_operator.Checker.Slot.{crc16tab, crc16sum, hash_key, slot, crc16_round, crc16_loop}

-- One bit of the CRC register: shift left, and add the polynomial if a one falls out.
pub crc_bit : ℕ → ℕ
crc_bit crc = if ltb crc (2 ^ 15) then crc * 2 else bit_xor ((crc * 2) % 2 ^ 16) 0x1021

pub crc_bits : ℕ → ℕ → ℕ
crc_bits zero crc = crc
crc_bits (suc n) crc = crc_bits n (crc_bit crc)

all_below : ℕ → (ℕ → Bool) → Bool
all_below zero p = true
all_below (suc n) p = p n && all_below n p

all_below_sound : (n : ℕ) (p : ℕ → Bool) (i : ℕ) → all_below n p ≡ true → i < n → p i ≡ true
unfolding all_below
all_below_sound zero p i h lt = absurd (omega arith)
all_below_sound (suc n) p i h lt = ground (arith, all_below_sound n p i)

table_check : all_below 256 (λ i. get_or crc16tab i 0 == crc_bits 8 (i * 2 ^ 8)) ≡ true
unfolding all_below crc16tab crc_bits crc_bit
table_check = refl

-- Each of the 256 entries of the table is what eight shifts of the bitwise algorithm make of its
-- index.
pub crc16tab-eq-crc_bits : (i : ℕ) → i < 256 → get_or crc16tab i 0 ≡ crc_bits 8 (i * 2 ^ 8)
crc16tab-eq-crc_bits i h =
    (==_iff (get_or crc16tab i 0) (crc_bits 8 (i * 2 ^ 8))).0
      (all_below_sound 256 (λ k. get_or crc16tab k 0 == crc_bits 8 (k * 2 ^ 8)) i table_check h)

-- The reference loop: a byte is added to the high byte of the register, then eight shifts.
pub reference_round : ℕ → ℕ → ℕ
reference_round crc c = crc_bits 8 (bit_xor (crc / 2 ^ 8) c * 2 ^ 8 + crc % 2 ^ 8)

pub reference_loop : ℕ → Bytes → ℕ
reference_loop crc [] = crc
reference_loop crc (c ∷ cs) = reference_loop (reference_round crc c) cs

abbrev pub AllBytes : Bytes → Type 0
AllBytes [] = Unit
AllBytes (c ∷ cs) = (c < 256) × AllBytes cs

-- The facts of one round, at a high byte `h`, and a low byte or key byte `l`.
fits : ℕ → ℕ → Bool
fits h l =
    (bit_xor (l * 2 ^ 8) (get_or crc16tab h 0) == crc_bits 8 (h * 2 ^ 8 + l))
    && (ltb (crc_bits 8 (h * 2 ^ 8 + l)) (2 ^ 16)
        && (bit_and (bit_xor h l) 0xff == bit_xor h l && ltb (bit_xor h l) 256))

fits_check : all_below 256 (λ h. all_below 256 (fits h)) ≡ true
unfolding all_below crc16tab fits crc_bits crc_bit
fits_check = refl

fits_lem : (h l : ℕ) → h < 256 → l < 256 → fits h l ≡ true
fits_lem h l hh hl =
    all_below_sound 256 (fits h) l
      (all_below_sound 256 (λ k. all_below 256 (fits k)) h fits_check hh) hl

record Fits (h l : ℕ) : Type 0 where
  entry : bit_xor (l * 2 ^ 8) (get_or crc16tab h 0) ≡ crc_bits 8 (h * 2 ^ 8 + l)
  small : crc_bits 8 (h * 2 ^ 8 + l) < 2 ^ 16
  masked : bit_and (bit_xor h l) 0xff ≡ bit_xor h l
  index : bit_xor h l < 256

parts_lem :
    (a b c d e f g : ℕ)
    → ((a == b) && (ltb b c && (d == e && ltb f g))) ≡ true
    → (a ≡ b) × (b < c) × (d ≡ e) × (f < g)
parts_lem a b c d e f g h = ground arith

Fits_lem : (h l : ℕ) → h < 256 → l < 256 → Fits h l
unfolding fits
Fits_lem h l hh hl =
    let t =
      parts_lem (bit_xor (l * 2 ^ 8) (get_or crc16tab h 0)) (crc_bits 8 (h * 2 ^ 8 + l)) (2 ^ 16)
        (bit_and (bit_xor h l) 0xff) (bit_xor h l) (bit_xor h l) 256 (fits_lem h l hh hl) in
    record { entry = t.0; small = t.1; masked = t.2; index = t.3 }

-- One round by the table is one round of the reference, and stays a `uint16`.
round_lem :
    (crc c : ℕ)
    → crc < 2 ^ 16
    → c < 256
    → (crc16_round crc c ≡ reference_round crc c) × (reference_round crc c < 2 ^ 16)
unfolding crc16_round reference_round
round_lem crc c hcrc hc =
    let h : ℕ = crc / 2 ^ 8 in
    let l : ℕ = crc % 2 ^ 8 in
    let mixed : Fits h c = Fits_lem h c (omega arith) hc in
    let table : Fits (bit_xor h c) l = Fits_lem (bit_xor h c) l mixed.index (omega arith) in
    (
      ap (λ (k : ℕ). bit_xor k (get_or crc16tab (bit_and (bit_xor (h % 2 ^ 8) c) 0xff) 0))
            {x = (crc * 2 ^ 8) % 2 ^ 16} {y = l * 2 ^ 8} (omega arith)
          ∙ ap (λ (k : ℕ). bit_xor (l * 2 ^ 8) (get_or crc16tab (bit_and (bit_xor k c) 0xff) 0))
              {x = h % 2 ^ 8} {y = h} (omega arith)
          ∙ ap (λ (k : ℕ). bit_xor (l * 2 ^ 8) (get_or crc16tab k 0)) mixed.masked
          ∙ table.entry,
      table.small,
    )

loop_lem :
    (crc : ℕ) (cs : Bytes) → crc < 2 ^ 16 → AllBytes cs → crc16_loop crc cs ≡ reference_loop crc cs
unfolding crc16_loop reference_loop
loop_lem crc [] h b = refl
loop_lem crc (c ∷ cs) h b =
    let r = round_lem crc c h b.0 in
    ap (λ (k : ℕ). crc16_loop k cs) r.0 ∙ loop_lem (reference_round crc c) cs r.1 b.1

-- The table-driven checksum of any string of bytes is the bit-by-bit CRC-16 of it, with the
-- polynomial 0x1021 and the register starting at zero.
pub crc16sum-eq-reference : (key : Bytes) → AllBytes key → crc16sum key ≡ reference_loop 0 key
unfolding crc16sum
crc16sum-eq-reference key h = loop_lem 0 key (omega arith) h

-- Test vector of the CRC-16/XMODEM definition.
crc16sum_check : crc16sum (codes "123456789") ≡ 0x31c3
unfolding crc16sum
crc16sum_check = refl

slot_check : slot (codes "user:{tag}:1") ≡ slot (codes "tag")
unfolding slot hash_key crc16sum
slot_check = refl
