-- ===== src/Checker/Keys/Start.antt =====
-- checker/pkg/kv.go: a new checker, and the memory that it starts with.
use native.Mathlib.Nat.{mod-lt}
use undermoon_operator.Prelude.{
  ℕ, zero, suc, ◌*◌, ◌%◌, ◌<◌, List, [], ◌∷◌, Bytes, find, insert, find-insert, eq_of_bytes_eq,
  some, has_byte, false, ◌≡◌, refl, arith, ◌==◌, if◌then◌else◌, length, inl, sym, ◌∙◌, ap,
}
use undermoon_operator.Checker.Client.{ClusterClient}
use undermoon_operator.Checker.Client.Store.{Store}
use undermoon_operator.Checker.Slot.{slot, gen_key, gen_lua_key}
use undermoon_operator.Checker.Slot.HashTag.{slot-gen_key}
use undermoon_operator.Checker.Slot.Names.{gen_lua_key-gen_key}
use undermoon_operator.Checker.Tags.{IsFull}
use undermoon_operator.Checker.Keys.{Outside, KvChecker}
use undermoon_operator.Checker.Keys.Sound.{has_key, IsFair}
use undermoon_operator.Checker.Keys.Memory.{Ready}

-- The loop over the keys, from `i`: with `total` for `slotNumber`.
unfoldable pub file_keys :
    (total : ℕ) (tags : ℕ → Bytes) (ts : Bytes) (id left i : ℕ)
    → (ℕ → List (Bytes × Bytes))
    → ℕ
    → List (Bytes × Bytes)
file_keys total tags ts id zero i keys = keys
file_keys total tags ts id (suc left) i keys =
    let s : ℕ = i % total in
    let k : Bytes = gen_key ts id s i (tags s) in
    file_keys total tags ts id left (suc i) (λ j. if j == s then insert k [] (keys j) else keys j)

module _ {E : Type 0} (out : Outside E) where
  -- The loop over the keys of the scripts, from `i`.
  unfoldable pub new_lua_keys : (ts : Bytes) (id left i : ℕ) → E → List Bytes × E
  new_lua_keys ts id zero i e = ([], e)
  new_lua_keys ts id (suc left) i e =
      let (second, e2) = out.second e in
      let (others, e3) = new_lua_keys ts id left (suc i) e2 in
      (gen_lua_key ts id i second ∷ others, e3)

  unfoldable pub new_kv_checker : (total : ℕ) → (ℕ → Bytes) → ℕ → ClusterClient E → KvChecker E
  unfolding file_keys new_lua_keys
  new_kv_checker total tags id client =
      let (ts, e) = out.now client.env in
      let (luas, e2) = new_lua_keys ts id 10 0 e in
      record {
        id = id;
        client = record client { env = e2 };
        keys = file_keys total tags ts id (total * 8) 0 (λ s. []);
        lua_keys = luas;
        lua_value = [];
      }

-- Tags as they are drawn: no braces.
abbrev pub IsPlain : ℕ → (ℕ → Bytes) → Type 0
IsPlain total tags =
    (s : ℕ) → s < total → (has_byte b'}' (tags s) ≡ false) × (has_byte b'{' (tags s) ≡ false)

-- Each key is in its slot, with no value, and none of the `luas`.
abbrev IsFresh : List Bytes → (ℕ → List (Bytes × Bytes)) → Type 0
IsFresh luas keys =
    (j : ℕ) (k v : Bytes)
    → find k (keys j) ≡ some v
    → (slot k ≡ j) × (has_key k luas ≡ false) × (v ≡ [])

file_keys-IsFresh :
    (total : ℕ) (tags : ℕ → Bytes) (ts : Bytes) (id : ℕ) (luas : List Bytes)
    → 0 < total
    → IsFull total tags
    → IsPlain total tags
    → has_byte b'{' ts ≡ false
    → ((s i : ℕ) (tag : Bytes) → has_key (gen_key ts id s i tag) luas ≡ false)
    → (left i : ℕ) (keys : ℕ → List (Bytes × Bytes)) → IsFresh luas keys
    → IsFresh luas (file_keys total tags ts id left i keys)
unfolding file_keys
file_keys-IsFresh total tags ts id luas p full plain brace apart zero i keys h = h
file_keys-IsFresh total tags ts id luas p full plain brace apart (suc left) i keys h =
    let s : ℕ = i % total in
    let k : Bytes = gen_key ts id s i (tags s) in
    let below : s < total = mod-lt i p in
    let filed : slot k ≡ s =
      slot-gen_key ts id s i (tags s) brace (plain s below).0 (plain s below).1
        (λ q. (full s below).0 (ap length q)) (full s below).1 in
    file_keys-IsFresh total tags ts id luas p full plain brace apart left (suc i)
      (λ j. if j == s then insert k [] (keys j) else keys j)
      (λ j m v e. ground (
        arith,
        e,
        h j m v,
        find-insert k m [] (keys j),
        eq_of_bytes_eq k m,
        filed,
        apart s i (tags s),
      ))

module _ {E : Type 0} (out : Outside E) where
  has_key-new_lua_keys :
      (ts : Bytes) (id left i : ℕ) (e : E) (s n : ℕ) (tag : Bytes)
      → has_key (gen_key ts id s n tag) (new_lua_keys out ts id left i e).0 ≡ false
  unfolding new_lua_keys has_key
  has_key-new_lua_keys ts id zero i e s n tag = refl
  has_key-new_lua_keys ts id (suc left) i e s n tag = ground (
    arith,
    gen_lua_key-gen_key ts id i (out.second e).0 id s n tag,
    has_key-new_lua_keys ts id left (suc i) (out.second e).1 s n tag,
  )

  new_lua_keys-store :
      {store : E → Store}
      → IsFair out store
      → (ts : Bytes) (id left i : ℕ) (e : E) → store (new_lua_keys out ts id left i e).1 ≡ store e
  unfolding new_lua_keys
  new_lua_keys-store fair ts id zero i e = refl
  new_lua_keys-store fair ts id (suc left) i e =
      new_lua_keys-store fair ts id left (suc i) (out.second e).1 ∙ fair.second_keeps e

-- A new checker remembers what the nodes hold, and files each key under its slot, when the nodes are
-- one store that nobody else writes and that is empty, its client is not in debug mode, there is a
-- slot, the slots have tags of their own without braces, and the time is printed without an opening
-- brace.
pub new_kv_checker-Ready :
    {E : Type 0} {out : Outside E} {store : E → Store}
    → IsFair out store
    → (total : ℕ) (tags : ℕ → Bytes) (id : ℕ) (client : ClusterClient E) → 0 < total
    → IsFull total tags
    → IsPlain total tags
    → has_byte b'{' (out.now client.env).0 ≡ false
    → store client.env ≡ (λ k. [])
    → client.debug ≡ false
    → Ready store
        (new_kv_checker out total tags id client).lua_keys
        (new_kv_checker out total tags id client)
unfolding new_kv_checker find
new_kv_checker-Ready {out = out} {store = store} fair total tags id client p full plain brace empty
      quiet =
    let (ts, e) = out.now client.env in
    let luas : List Bytes = (new_lua_keys out ts id 10 0 e).0 in
    let fresh =
      file_keys-IsFresh total tags ts id luas p full plain brace
        (λ s i tag. has_key-new_lua_keys out ts id 10 0 e s i tag) (total * 8) 0 (λ s. [])
        (λ j k v h. ground arith) in
    (
      (λ k. []),
      (
        new_lua_keys-store out fair ts id 10 0 e ∙ fair.now_keeps client.env ∙ empty,
        quiet,
        record {
          keys_are = refl;
          filed = λ j k v h. let (a, b, c) = fresh j k v h in (a, b, inl (sym c));
          lua_filed = λ k h. refl;
        },
      ),
    )
