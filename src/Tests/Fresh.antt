-- ===== src/Tests/Fresh.antt =====
-- checker/pkg: the start of a checker on two slots, and a MONITOR stream of three lines.
use undermoon_operator.Prelude.{
  ◌≢◌, bytes_eq, if◌then◌else◌, ℕ, zero, suc, ◌-◌, ◌<◌, List, [], ◌∷◌, Bytes, codes, has_byte, some,
  none, true, false, ◌≡◌, refl, arith, inl, inr,
}
use undermoon_operator.Checker.Slot.{slot}
use undermoon_operator.Checker.Slot.Samples.{slot_of_0, slot_of_1}
use undermoon_operator.Checker.Tags.{new_slot_tags, AllTags, Drawn, IsFull, new_slot_tags-IsFull}
use undermoon_operator.Checker.Keys.Start.{new_kv_checker, IsPlain, new_kv_checker-Ready}
use undermoon_operator.Checker.Keys.Memory.{Ready}
use undermoon_operator.Checker.Monitor.{Connection, new_monitor_client, run_monitor}
use undermoon_operator.Checker.Monitor.Lines.{lines_of, end_of, run_monitor-content}
use undermoon_operator.Checker.Ring.{content}
use undermoon_operator.Checker.Ring.Refine.{last}
use undermoon_operator.Checker.Client.{ok}
use undermoon_operator.Checker.Client.Store.{Store}
use undermoon_operator.Checker.Keys.{KvChecker}
use undermoon_operator.Checker.Keys.Checks.{check_lua_mget}
use undermoon_operator.Checker.Keys.Sound.{Holds, has_key}
use undermoon_operator.Checker.Keys.Detects.{check_lua_mget-has_key}
use undermoon_operator.Tests.Cluster.{
  checker, checker-filed, script_keys, outside, outside-IsFair, same_store, start,
}

abbrev tag_0 : Bytes
tag_0 = codes "04cc70"

abbrev tag_1 : Bytes
tag_1 = codes "0006c5"

-- The second draw is of a slot that has a tag.
abbrev draws : List Bytes
draws = tag_1 ∷ tag_1 ∷ tag_0 ∷ []

below_two : (s : ℕ) → s < 2 → Drawn s draws
below_two zero h = inr (inr (inl slot_of_0))
below_two (suc zero) h = inl slot_of_1
below_two (suc (suc s)) h = ground arith

draws-AllTags : AllTags 2 draws
draws-AllTags =
    ((fits_1, λ q. ground arith), ((fits_1, λ q. ground arith), ((fits_0, λ q. ground arith), tt)))
  where
    fits_1 : slot tag_1 < 2
    fits_1 = omega (arith, slot_of_1)

    fits_0 : slot tag_0 < 2
    fits_0 = omega (arith, slot_of_0)

new_slot_tags-IsFull_example :
    (full : ℕ → Bytes) × (new_slot_tags 2 draws ≡ some full) × IsFull 2 full
new_slot_tags-IsFull_example = new_slot_tags-IsFull 2 draws draws-AllTags below_two

abbrev tags : ℕ → Bytes
tags zero = tag_0
tags (suc s) = tag_1

tags-IsFull : IsFull 2 tags
tags-IsFull zero h = (λ q. ground arith, slot_of_0)
tags-IsFull (suc zero) h = (λ q. ground arith, slot_of_1)
tags-IsFull (suc (suc s)) h = ground arith

tags-IsPlain : IsPlain 2 tags
unfolding has_byte
tags-IsPlain zero h = (refl, refl)
tags-IsPlain (suc s) h = (refl, refl)

time_no_brace : has_byte b'{' (outside.now start.env).0 ≡ false
unfolding has_byte
time_no_brace = refl

new_kv_checker-Ready_example :
    Ready same_store
      (new_kv_checker outside 2 tags 0 start).lua_keys
      (new_kv_checker outside 2 tags 0 start)
new_kv_checker-Ready_example =
    new_kv_checker-Ready outside-IsFair 2 tags 0 start (omega arith) tags-IsFull tags-IsPlain
      time_no_brace refl refl

-- The context is cancelled after the first line.
abbrev stream : Connection
stream = record {
  dialed = true;
  wrote = true;
  flushed = true;
  response = some (codes "+OK\r\n");
  reads =
      (false, some (codes "a"))
      ∷ (true, some (codes "b"))
      ∷ (true, some (codes "c"))
      ∷ (true, none)
      ∷ [];
}

run_monitor-content_example :
    ((run_monitor stream (new_monitor_client (codes "a:1") 3).buf).0 ≡ end_of stream.reads)
    × (content (run_monitor stream (new_monitor_client (codes "a:1") 3).buf).1
        ≡ last (3 - 1) (lines_of stream.reads))
run_monitor-content_example =
    run_monitor-content (codes "a:1") 3 stream (codes "+OK\r\n") (omega arith) (refl, refl, refl)
      refl refl

-- Somebody else has written the key of the scripts.
abbrev overwritten : Store
overwritten k = if bytes_eq k (codes "lua") then codes "x" else []

abbrev misled : KvChecker Store
misled = record checker { client = record start { env = overwritten } }

misled-Holds : Holds same_store script_keys start.env overwritten misled
misled-Holds =
    (refl, refl, record { keys_are = refl; filed = checker-filed; lua_filed = λ k h. refl })

lua_read : has_key (codes "lua") script_keys ≡ true
unfolding has_key bytes_eq
lua_read = refl

lua_differs : overwritten (codes "lua") ≢ start.env (codes "lua")
unfolding bytes_eq
lua_differs h = ground arith

check_lua_mget-has_key_example : (check_lua_mget outside misled).0 ≢ ok tt
check_lua_mget-has_key_example =
    check_lua_mget-has_key outside-IsFair misled (codes "lua") misled-Holds lua_read lua_differs
