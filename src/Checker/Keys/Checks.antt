-- ===== src/Checker/Keys/Checks.antt =====
-- checker/pkg/kv.go: the seven checks, and the loop that runs them.
use undermoon_operator.Prelude.{
  ℕ, zero, suc, ◌%◌, Option, List, [], ◌∷◌, ◌++◌, Bytes, bytes_eq, find, insert, if◌then◌else◌,
  ◌==◌, length, map, get_or, not,
}
use undermoon_operator.Checker.Client.{exit, panic, invalid_length, inconsistent, Result, ok, err}
use undermoon_operator.Checker.Client.Methods.{
  client_get, client_set, client_del, client_mget, client_mset, client_lua_mget, client_lua_mset,
}
use undermoon_operator.Checker.Slot.{slot}
use undermoon_operator.Checker.Keys.{
  Outside, Check, pure, raise, ask, ◌>>=◌, ◌>>◌, call, write, put_key, put_keys, get_lua_keys,
  get_lua_value, set_lua_value, wait_n, nil_to_empty,
}
use undermoon_operator.Checker.Keys.Choose.{
  random_choose_keys_in_same_slot, random_choose_keys, get_keys,
}

-- `expected := kvs[key]`
abbrev pub expected_value : List (Bytes × Bytes) → Bytes → Bytes
expected_value kvs k = nil_to_empty (find k kvs)

-- The replies against what is expected: the last difference is the error. A short reply is an index
-- out of range.
unfoldable pub compare_all :
    (Bytes → Bytes) → List Bytes → List (Option Bytes) → Result (Unit {0}) → Result (Unit {0})
unfolding nil_to_empty
compare_all expected [] values last = last
compare_all expected (k ∷ ks) [] last = err panic
compare_all expected (k ∷ ks) (value ∷ values) last =
    let s : Bytes = nil_to_empty value in
    compare_all expected ks values
      (if bytes_eq s (expected k) then last else err (inconsistent k s (expected k)))

-- `[k1, v1, k2, v2, ...]`
unfoldable pub arguments : List (Bytes × Bytes) → List Bytes
arguments [] = []
arguments ((k, v) ∷ l) = k ∷ v ∷ arguments l

unfoldable pub insert_all : List (Bytes × Bytes) → List (Bytes × Bytes) → List (Bytes × Bytes)
insert_all [] m = m
insert_all ((k, v) ∷ l) m = insert_all l (insert k v m)

unfoldable pub lift : {E : Type 0} → Result (Unit {0}) → Check E Unit
lift r ck = (r, ck)

module _ {E : Type 0} (out : Outside E) where
  unfoldable pub gen_new_value : Bytes → Check E Bytes
  unfolding ask ◌>>=◌ pure
  gen_new_value key = do t ← ask out.now; pure (key ++ b':' ∷ t)

  unfoldable pub set_each : List (Bytes × Bytes) → Check E Unit
  unfolding gen_new_value ◌>>=◌ ◌>>◌ pure write put_key client_set
  set_each [] = pure tt
  set_each ((k, v) ∷ l) = do
    value ← gen_new_value k
    write (client_set out.nodes k value)
    put_key (slot k) k value
    set_each l

  unfoldable pub check_set : Check E Unit
  unfolding wait_n random_choose_keys ask ◌>>=◌ ◌>>◌ set_each
  check_set = do wait_n out 10; kvs ← random_choose_keys out 10; l ← ask (out.visit kvs); set_each l

  -- The entries with their new values.
  unfoldable pub new_values : List (Bytes × Bytes) → Check E (List (Bytes × Bytes))
  unfolding gen_new_value ◌>>=◌ pure
  new_values [] = pure []
  new_values ((k, v) ∷ l) = do
    value ← gen_new_value k
    others ← new_values l
    pure ((k, value) ∷ others)

  unfoldable pub check_mset : Check E Unit
  unfolding wait_n random_choose_keys_in_same_slot ask ◌>>=◌ ◌>>◌ new_values write client_mset
      put_keys arguments insert_all
  check_mset = do
    wait_n out 10
    (s, kvs) ← random_choose_keys_in_same_slot out 10
    l ← ask (out.visit kvs)
    news ← new_values l
    write (client_mset out.nodes (arguments news))
    written ← ask (out.visit (insert_all news kvs))
    put_keys s written

  unfoldable pub get_each : List (Bytes × Bytes) → Check E Unit
  unfolding ◌>>=◌ ◌>>◌ pure raise call client_get nil_to_empty
  get_each [] = pure tt
  get_each ((key, value) ∷ l) = do
    (v, address) ← call (client_get out.nodes key)
    if bytes_eq (nil_to_empty v) value
        then get_each l
        else raise (inconsistent key (nil_to_empty v) value)

  unfoldable pub check_get : Check E Unit
  unfolding wait_n random_choose_keys ask ◌>>=◌ ◌>>◌ get_each
  check_get = do wait_n out 10; kvs ← random_choose_keys out 10; l ← ask (out.visit kvs); get_each l

  -- `MGET` of some keys, and the comparison.
  unfoldable pub mget_entries : List (Bytes × Bytes) → Check E Unit
  unfolding wait_n get_keys ◌>>=◌ ◌>>◌ raise call client_mget lift compare_all nil_to_empty
  mget_entries kvs = do
    wait_n out 10
    keys ← get_keys out kvs
    (values, address) ← call (client_mget out.nodes keys)
    if not (length keys == length values)
        then raise (invalid_length (length keys) (length values))
        else lift (compare_all (expected_value kvs) keys values (ok tt))

  unfoldable pub check_mget : Check E Unit
  unfolding random_choose_keys_in_same_slot ◌>>=◌ pure mget_entries
  check_mget = do
    (s, kvs) ← random_choose_keys_in_same_slot out 10
    if length kvs == 0 then pure tt else mget_entries kvs

  unfoldable pub del_entries : ℕ → List (Bytes × Bytes) → Check E Unit
  unfolding wait_n get_keys ◌>>=◌ ◌>>◌ write client_del put_keys
  del_entries s kvs = do
    wait_n out 10
    keys ← get_keys out kvs
    write (client_del out.nodes keys)
    put_keys s (map (λ k. (k, [])) keys)

  unfoldable pub check_del : Check E Unit
  unfolding random_choose_keys_in_same_slot ◌>>=◌ pure del_entries
  check_del = do
    (s, kvs) ← random_choose_keys_in_same_slot out 10
    if length kvs == 0 then pure tt else del_entries s kvs

  unfoldable pub check_lua_mset : Check E Unit
  unfolding get_lua_keys wait_n ask ◌>>=◌ ◌>>◌ write client_lua_mset set_lua_value
  check_lua_mset = do
    keys ← get_lua_keys
    wait_n out (length keys)
    t ← ask out.nanosecond
    u ← ask out.uuid
    write (client_lua_mset out.nodes keys (map (λ k. t ++ b':' ∷ u) keys))
    set_lua_value (t ++ b':' ∷ u)

  unfoldable pub check_lua_mget : Check E Unit
  unfolding get_lua_keys get_lua_value wait_n ◌>>=◌ ◌>>◌ call client_lua_mget lift compare_all
  check_lua_mget = do
    keys ← get_lua_keys
    wait_n out (length keys)
    (values, address) ← call (client_lua_mget out.nodes keys)
    value ← get_lua_value
    lift (compare_all (λ k. value) keys values (ok tt))

  -- The `switch` on `n`.
  unfoldable pub check_of : ℕ → Check E Unit
  unfolding check_set check_mset check_lua_mset check_get check_mget check_lua_mget check_del pure
  check_of n =
      get_or
        (check_set ∷ check_mset ∷ check_lua_mset ∷ check_get ∷ check_mget ∷ check_lua_mget
          ∷ check_del ∷ [])
        n (pure tt)

  unfoldable pub check_key_value : Check E Unit
  unfolding ask ◌>>=◌ check_of
  check_key_value = do n ← ask out.rand; check_of (n % 7)

  -- `loopCheck`, for as many rounds as the number says; it is without an error only where they are over.
  unfoldable pub loop_check : ℕ → Check E Unit
  unfolding ask ◌>>=◌ ◌>>◌ raise check_key_value pure
  loop_check zero = pure tt
  loop_check (suc rounds) = do
    cancelled ← ask out.cancelled
    if cancelled then raise exit else (check_key_value >> loop_check rounds)
