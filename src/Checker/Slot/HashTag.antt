-- ===== src/Checker/Slot/HashTag.antt =====
-- checker/pkg/slot.go and kv.go: the slots of keys with a hash tag.
use mathlib.Core.List.{append_assoc}
use undermoon_operator.Prelude.{
  ℕ, suc, ◌+◌, ◌-◌, ◌%◌, ◌<◌, ◌≡◌, ◌≢◌, refl, ap, sym, ◌∙◌, arith, false, Bytes, codes, has_byte,
  has_byte-append, bytes_eq, dec, dec-no-byte, [], ◌∷◌, ◌++◌, none, some, length, take, drop,
}
use undermoon_operator.Checker.Slot.{
  index_byte, key_at, key_from, hash_key, gen_key, slot, slot_number, crc16sum,
}

-- Every key has a slot of the cluster.
pub slot-lt-slot_number : (key : Bytes) → slot key < slot_number
unfolding slot
slot-lt-slot_number key = ground arith

index_byte-none : (xs : Bytes) (c : ℕ) → has_byte c xs ≡ false → index_byte xs c ≡ none
unfolding index_byte has_byte
index_byte-none [] c h = refl
index_byte-none (x ∷ xs) c h = ground (arith, index_byte-none xs c)

-- The first occurrence of `c` is right behind a prefix without it.
index_byte-append :
    (xs ys : Bytes) (c : ℕ) → has_byte c xs ≡ false → index_byte (xs ++ c ∷ ys) c ≡ some (length xs)
unfolding index_byte has_byte
index_byte-append [] ys c h = ground arith
index_byte-append (x ∷ xs) ys c h = ground (arith, index_byte-append xs ys c)

drop-past : (xs ys : Bytes) (c : ℕ) → drop (length xs + 1) (xs ++ c ∷ ys) ≡ ys
drop-past [] ys c = refl
drop-past (x ∷ xs) ys c =
    ap (λ (k : ℕ). drop k (x ∷ xs ++ c ∷ ys)) {y = suc (length xs + 1)} (omega arith)
    ∙ drop-past xs ys c

take-to : (xs ys : Bytes) → take (length xs) (xs ++ ys) ≡ xs
take-to [] ys = refl
take-to (x ∷ xs) ys = ap (λ (t : Bytes). x ∷ t) (take-to xs ys)

key_at-some :
    (key : Bytes) (i n : ℕ)
    → key_at key i (some (suc n)) ≡ take (i + suc n + 1 - (i + 1)) (drop (i + 1) key)
unfolding key_at
key_at-some key i n = ground arith

-- The key that is hashed is what stands between the first open brace and the next closed one.
pub hash_key-tag :
    (pre tag post : Bytes)
    → has_byte b'{' pre ≡ false
    → has_byte b'}' tag ≡ false
    → tag ≢ []
    → hash_key (pre ++ b'{' ∷ (tag ++ b'}' ∷ post)) ≡ tag
unfolding hash_key
hash_key-tag pre [] post hp ht ne = absurd (ne refl)
hash_key-tag pre (t ∷ tag) post hp ht ne =
    let rest : Bytes = (t ∷ tag) ++ b'}' ∷ post in
    let key : Bytes = pre ++ b'{' ∷ rest in
    ap (key_from key) (index_byte-append pre rest b'{' hp)
    ∙ ap (λ (x : Bytes). key_at key (length pre) (index_byte x b'}')) (drop-past pre rest b'{')
    ∙ ap (key_at key (length pre)) (index_byte-append (t ∷ tag) post b'}' ht)
    ∙ key_at-some key (length pre) (length tag)
    ∙ ap (λ (x : Bytes). take (length pre + suc (length tag) + 1 - (length pre + 1)) x)
        (drop-past pre rest b'{')
    ∙ ap (λ (n : ℕ). take n rest) {y = suc (length tag)} (omega arith)
    ∙ take-to (t ∷ tag) (b'}' ∷ post)

-- A key without an open brace is hashed whole.
pub hash_key-plain : (key : Bytes) → has_byte b'{' key ≡ false → hash_key key ≡ key
unfolding hash_key
hash_key-plain key h = rw (index_byte-none key b'{' h)

bytes_eq-nil : (key : Bytes) → key ≢ [] → bytes_eq key [] ≡ false
unfolding bytes_eq
bytes_eq-nil [] h = absurd (h refl)
bytes_eq-nil (x ∷ xs) h = refl

slot_of_ne : (key : Bytes) → key ≢ [] → slot key ≡ crc16sum (hash_key key) % slot_number
unfolding slot
slot_of_ne key h = rw (bytes_eq-nil key h)

append-ne-nil : (xs ys : Bytes) (c : ℕ) → xs ++ c ∷ ys ≢ []
append-ne-nil [] ys c h = ground arith
append-ne-nil (x ∷ xs) ys c h = ground arith

-- A key that holds a tag in its first braces lies in the slot of the tag itself, whatever stands
-- around, if the tag is not empty and without braces.
pub slot-tag :
    (pre tag post : Bytes)
    → has_byte b'{' pre ≡ false
    → has_byte b'}' tag ≡ false
    → has_byte b'{' tag ≡ false
    → tag ≢ []
    → slot (pre ++ b'{' ∷ (tag ++ b'}' ∷ post)) ≡ slot tag
slot-tag pre tag post hp ht ho ne =
    slot_of_ne (pre ++ b'{' ∷ (tag ++ b'}' ∷ post)) (append-ne-nil pre (tag ++ b'}' ∷ post) b'{')
    ∙ ap (λ (k : Bytes). crc16sum k % slot_number)
        (hash_key-tag pre tag post hp ht ne ∙ sym (hash_key-plain tag ho))
    ∙ sym (slot_of_ne tag ne)

-- What `genKey` prints in front of the tag.
key_front : Bytes → ℕ → ℕ → Bytes
key_front ts id s =
    codes "test:" ++ (ts ++ (codes ":" ++ (dec id ++ (codes ":" ++ (dec s ++ codes ":")))))

key_front-no-brace :
    (ts : Bytes) (id s : ℕ) → has_byte b'{' ts ≡ false → has_byte b'{' (key_front ts id s) ≡ false
unfolding key_front has_byte
key_front-no-brace ts id s h =
    has_byte-append b'{' ts (codes ":" ++ (dec id ++ (codes ":" ++ (dec s ++ codes ":")))) h (
      has_byte-append b'{' (dec id) (codes ":" ++ (dec s ++ codes ":"))
        (dec-no-byte b'{' id (omega arith))
        (has_byte-append b'{' (dec s) (codes ":") (dec-no-byte b'{' s (omega arith)) refl))

gen_key-split :
    (ts : Bytes) (id s key_id : ℕ) (tag : Bytes)
    → gen_key ts id s key_id tag
      ≡ key_front ts id s ++ b'{' ∷ (tag ++ b'}' ∷ (codes ":" ++ dec key_id))
unfolding gen_key key_front
gen_key-split ts id s key_id tag = simp append_assoc

-- A key that `genKey` makes for the tag of a slot lies in that slot, whatever the time, the
-- checker and the key's number, if the tag is as `newSlotTags` makes it: not empty, without
-- braces, and in the slot that it is for.
pub slot-gen_key :
    (ts : Bytes) (id s key_id : ℕ) (tag : Bytes)
    → has_byte b'{' ts ≡ false
    → has_byte b'}' tag ≡ false
    → has_byte b'{' tag ≡ false
    → tag ≢ []
    → slot tag ≡ s
    → slot (gen_key ts id s key_id tag) ≡ s
slot-gen_key ts id s key_id tag hts ht ho ne e =
    ap slot (gen_key-split ts id s key_id tag)
    ∙ slot-tag (key_front ts id s) tag (codes ":" ++ dec key_id) (key_front-no-brace ts id s hts) ht
        ho ne
    ∙ e
