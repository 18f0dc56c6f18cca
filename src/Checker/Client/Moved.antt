-- ===== src/Checker/Client/Moved.antt =====
-- checker/pkg/client.go: `parseMoved` on the redirection that a Redis node writes.
use undermoon_operator.Prelude.{
  ℕ, [], ◌∷◌, ◌++◌, Bytes, codes, has_byte, false, ◌≡◌, refl, arith, dec, dec-no-byte, inr,
}
use undermoon_operator.Checker.Client.{
  split, contains, has_prefix, error_text, third_part, parse_moved, message, ok,
}

split-no-byte : (c : ℕ) (xs : Bytes) → has_byte c xs ≡ false → split c xs ≡ (xs, [])
unfolding split has_byte
split-no-byte c [] h = refl
split-no-byte c (x ∷ xs) h = ground (arith, split-no-byte c xs)

split-append :
    (c : ℕ) (xs ys : Bytes)
    → has_byte c xs ≡ false
    → split c (xs ++ c ∷ ys) ≡ (xs, (split c ys).0 ∷ (split c ys).1)
unfolding split has_byte
split-append c [] ys h = ground arith
split-append c (x ∷ xs) ys h = ground (arith, split-append c xs ys)

-- Of a text `MOVED <slot> <address>`, whatever the slot, and for any address without a space,
-- `parseMoved` gives this address.
pub parse_moved-message :
    (slot : ℕ) (address : Bytes)
    → has_byte b' ' address ≡ false
    → parse_moved (message (codes "MOVED " ++ dec slot ++ b' ' ∷ address)) ≡ ok address
unfolding parse_moved contains has_prefix error_text third_part split
parse_moved-message slot address h = ground (
  arith,
  split-append b' ' (dec slot) address (dec-no-byte b' ' slot (inr (omega arith))),
  split-no-byte b' ' address h,
)
