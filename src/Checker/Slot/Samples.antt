-- ===== src/Checker/Slot/Samples.antt =====
-- checker/pkg/slot.go: the slots of two tags, as the tests use them.
use undermoon_operator.Prelude.{◌≡◌, refl, codes}
use undermoon_operator.Checker.Slot.{slot, crc16sum, hash_key}

pub slot_of_0 : slot (codes "04cc70") ≡ 0
unfolding slot crc16sum hash_key
slot_of_0 = refl

pub slot_of_1 : slot (codes "0006c5") ≡ 1
unfolding slot crc16sum hash_key
slot_of_1 = refl
