-- ===== src/Tests/Checkers.antt =====
-- checker/pkg: the ring buffer and the slots of keys.
use undermoon_operator.Prelude.{
  ◌-◌, ◌≡◌, ◌≢◌, refl, arith, some, List, [], ◌∷◌, ◌++◌, Bytes, codes, has_byte, false,
}
use undermoon_operator.Checker.Ring.{RingBuf, new_ring_buf, content}
use undermoon_operator.Checker.Ring.Bounds.{IsValid}
use undermoon_operator.Checker.Ring.Refine.{last, add_all, add_all-new}
use undermoon_operator.Checker.Slot.{crc16sum, slot, gen_key}
use undermoon_operator.Checker.Slot.Table.{reference_loop, crc16sum-eq-reference}
use undermoon_operator.Checker.Slot.HashTag.{slot-tag, slot-gen_key}

abbrev four_lines : List Bytes
four_lines = codes "a" ∷ codes "b" ∷ codes "c" ∷ codes "d" ∷ []

add_all-new_example :
    (r : RingBuf) × (add_all (new_ring_buf 3) four_lines ≡ some r)
    × IsValid r
    × (content r ≡ last (3 - 1) four_lines)
add_all-new_example = add_all-new 3 four_lines (omega arith)

last_two : last 2 four_lines ≡ codes "c" ∷ codes "d" ∷ []
last_two = refl

crc16sum-eq-reference_example : crc16sum (codes "12") ≡ reference_loop 0 (codes "12")
crc16sum-eq-reference_example = crc16sum-eq-reference (codes "12") (omega arith, (omega arith, tt))

no_brace : (has_byte b'{' (codes "tag") ≡ false) × (has_byte b'}' (codes "tag") ≡ false)
unfolding has_byte
no_brace = (refl, refl)

tag_given : codes "tag" ≢ []
tag_given = ground arith

front_no_brace : has_byte b'{' (codes "user:") ≡ false
unfolding has_byte
front_no_brace = refl

slot-tag_example :
    slot (codes "user:" ++ b'{' ∷ (codes "tag" ++ b'}' ∷ codes ":1")) ≡ slot (codes "tag")
slot-tag_example =
    slot-tag (codes "user:") (codes "tag") (codes ":1") front_no_brace no_brace.1 no_brace.0
      tag_given

time_no_brace : has_byte b'{' (codes "2020") ≡ false
unfolding has_byte
time_no_brace = refl

slot-gen_key_example :
    slot (gen_key (codes "2020") 1 (slot (codes "tag")) 7 (codes "tag")) ≡ slot (codes "tag")
slot-gen_key_example =
    slot-gen_key (codes "2020") 1 (slot (codes "tag")) 7 (codes "tag") time_no_brace no_brace.1
      no_brace.0 tag_given refl
