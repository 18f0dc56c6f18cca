-- ===== src/Checker/Slot/Names.antt =====
-- checker/pkg/kv.go: the keys of the scripts and the other keys have different names.
use mathlib.Core.Path.{ap₂}
use mathlib.Core.List.{append_assoc}
use undermoon_operator.Prelude.{
  ℕ, [], ◌∷◌, ◌++◌, Bytes, codes, bytes_eq, has_byte, dec, dec-no-byte, false, ◌≡◌, refl, ◌∙◌,
  arith, inl, ◌≢◌,
}
use undermoon_operator.Checker.Slot.{gen_key, gen_lua_key}

bytes_eq-append : (xs ys zs : Bytes) → bytes_eq (xs ++ ys) (xs ++ zs) ≡ bytes_eq ys zs
unfolding bytes_eq
bytes_eq-append [] ys zs = refl
bytes_eq-append (x ∷ xs) ys zs = ground (arith, bytes_eq-append xs ys zs)

bytes_eq_other :
    (c d : ℕ) (ys xs zs : Bytes)
    → c ≢ d
    → has_byte c xs ≡ false
    → bytes_eq (c ∷ ys) (xs ++ d ∷ zs) ≡ false
unfolding bytes_eq has_byte
bytes_eq_other c d ys [] zs h k = ground arith
bytes_eq_other c d ys (x ∷ xs) zs h k = ground arith

-- What follows the time in a key.
abbrev lua_end : ℕ → ℕ → ℕ → Bytes
lua_end id n second = codes "ua:" ++ dec id ++ codes ":{tag}:" ++ dec n ++ codes ":" ++ dec second

abbrev key_end : ℕ → ℕ → Bytes → Bytes
key_end s i tag = dec s ++ codes ":{" ++ tag ++ codes "}:" ++ dec i

gen_lua_key-split :
    (ts : Bytes) (id n second : ℕ)
    → gen_lua_key ts id n second ≡ codes "test:" ++ (ts ++ b':' ∷ b'l' ∷ lua_end id n second)
unfolding gen_lua_key
gen_lua_key-split ts id n second = simp append_assoc

gen_key-split_time :
    (ts : Bytes) (id s i : ℕ) (tag : Bytes)
    → gen_key ts id s i tag ≡ codes "test:" ++ (ts ++ b':' ∷ (dec id ++ b':' ∷ key_end s i tag))
unfolding gen_key
gen_key-split_time ts id s i tag = simp append_assoc

pub gen_lua_key-gen_key :
    (ts : Bytes) (id n second id2 s i : ℕ) (tag : Bytes)
    → bytes_eq (gen_lua_key ts id n second) (gen_key ts id2 s i tag) ≡ false
unfolding bytes_eq
gen_lua_key-gen_key ts id n second id2 s i tag =
    let lua : Bytes = lua_end id n second in
    let number : Bytes = dec id2 ++ b':' ∷ key_end s i tag in
    ap₂ bytes_eq (gen_lua_key-split ts id n second) (gen_key-split_time ts id2 s i tag)
    ∙ bytes_eq-append (codes "test:") (ts ++ b':' ∷ b'l' ∷ lua) (ts ++ b':' ∷ number)
    ∙ bytes_eq-append ts (b':' ∷ b'l' ∷ lua) (b':' ∷ number)
    ∙ bytes_eq_other b'l' b':' lua (dec id2) (key_end s i tag) (ground arith)
        (dec-no-byte b'l' id2 (inl (omega arith)))
