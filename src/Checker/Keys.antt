-- ===== src/Checker/Keys.antt =====
-- checker/pkg/kv.go: the state of a `kvChecker` and the steps that its checks are made of.
pub mod Choose
pub mod Checks
pub mod Sound
pub mod Calls
pub mod Choices
pub mod Reads
pub mod Puts
pub mod Memory
pub mod Writes
pub mod Honest
pub mod Detects
pub mod Start
use undermoon_operator.Prelude.{
  ℕ, Option, none, some, List, [], ◌∷◌, ◌++◌, Bytes, codes, insert, Bool, if◌then◌else◌, ◌==◌,
}
use undermoon_operator.Checker.Client.{
  ClusterClient, Nodes, CheckError, panic, limiter, Result, ok, err,
}

-- A Go `int`: `negsuc n` is -(n+1).
pub data ℤ : Type 0 where
  pos negsuc : ℕ → ℤ

-- The outside: the nodes, and what the libraries draw, read or allow.
pub record Outside (E : Type 0) : Type 0 where
  pub nodes : Nodes E
  -- `rl.WaitN`: whether it returns without an error
  pub wait_n : ℕ → E → Bool × E
  -- `int((d.Rand() + 2*s) * slotNumber / (4 * s))`
  pub draw : E → ℤ × E
  -- `rand.Int()`
  pub rand : E → ℕ × E
  -- `time.Now()`, printed; its parts; `uuid.NewString()`
  pub now : E → Bytes × E
  pub second : E → ℕ × E
  pub nanosecond : E → Bytes × E
  pub uuid : E → Bytes × E
  -- `ctx.Done()` is closed
  pub cancelled : E → Bool × E
  -- the entries of a map, in the order in which a `range` visits them
  pub visit : List (Bytes × Bytes) → E → List (Bytes × Bytes) × E

-- `kvChecker`; the `keys` of each slot are a map. The limiter and the distribution are outside.
pub record KvChecker (E : Type 0) : Type 0 where
  pub id : ℕ
  pub client : ClusterClient E
  pub keys : ℕ → List (Bytes × Bytes)
  pub lua_keys : List Bytes
  pub lua_value : Bytes

-- An action of the checker, which ends with a value or an error.
abbrev pub Check : Type 0 → Type 0 → Type 0
Check E A = KvChecker E → Result A × KvChecker E

unfoldable pub named : {A : Type 0} → Bytes → Result A → Result (A × Bytes)
named address (ok a) = ok (a, address)
named address (err y) = err y

unfoldable pub written : Option CheckError → Result (Unit {0})
written none = ok tt
written (some y) = err y

module _ {E : Type 0} where
  unfoldable pub pure : {A : Type 0} → A → Check E A
  pure a ck = (ok a, ck)

  unfoldable pub raise : {A : Type 0} → CheckError → Check E A
  raise y ck = (err y, ck)

  unfoldable pub next_if_ok :
      {A B : Type 0} → (A → Check E B) → Result A × KvChecker E → Result B × KvChecker E
  next_if_ok f (ok a, ck) = f a ck
  next_if_ok f (err y, ck) = (err y, ck)

  infixl 5 ◌>>=◌ ◌>>◌
  unfoldable pub ◌>>=◌ : {A B : Type 0} → Check E A → (A → Check E B) → Check E B
  unfolding next_if_ok
  ◌>>=◌ m f ck = next_if_ok f (m ck)

  unfoldable pub ◌>>◌ : {A B : Type 0} → Check E A → Check E B → Check E B
  unfolding ◌>>=◌
  ◌>>◌ m n = m >>= λ _. n

  abbrev pub with_client : KvChecker E → ClusterClient E → KvChecker E
  with_client ck s = record ck { client = s }

  unfoldable pub ask : {A : Type 0} → (E → A × E) → Check E A
  ask f ck = let (a, e) = f ck.client.env in (ok a, with_client ck (record ck.client { env = e }))

  -- A call of the client that returns a value, an address and an error.
  unfoldable pub call :
      {A : Type 0} → (ClusterClient E → (Result A × Bytes) × ClusterClient E) → Check E (A × Bytes)
  unfolding named
  call m ck = let ((r, address), s) = m ck.client in (named address r, with_client ck s)

  -- A call of the client that returns an address and an error.
  unfoldable pub write :
      (ClusterClient E → (Option CheckError × Bytes) × ClusterClient E) → Check E Unit
  unfolding written
  write m ck = let ((r, address), s) = m ck.client in (written r, with_client ck s)

  -- `ck.keys[slot][k] = v`
  unfoldable pub put_key : ℕ → Bytes → Bytes → Check E Unit
  put_key s k v ck =
      (ok tt, record ck { keys = λ i. if i == s then insert k v (ck.keys i) else ck.keys i })

  unfoldable pub put_keys : ℕ → List (Bytes × Bytes) → Check E Unit
  unfolding ◌>>◌ put_key pure
  put_keys s [] = pure tt
  put_keys s ((k, v) ∷ l) = do put_key s k v; put_keys s l

  -- The state, and a part of it changed.
  unfoldable pub keys_of : ℕ → Check E (List (Bytes × Bytes))
  keys_of s ck = (ok (ck.keys s), ck)

  unfoldable pub get_lua_keys : Check E (List Bytes)
  get_lua_keys ck = (ok ck.lua_keys, ck)

  unfoldable pub get_lua_value : Check E Bytes
  get_lua_value ck = (ok ck.lua_value, ck)

  unfoldable pub set_lua_value : Bytes → Check E Unit
  set_lua_value v ck = (ok tt, record ck { lua_value = v })

module _ {E : Type 0} (out : Outside E) where
  unfoldable pub allowed : Bool → Check E Unit
  unfolding pure raise
  allowed b = if b then pure tt else raise limiter

  unfoldable pub wait_n : ℕ → Check E Unit
  unfolding ask allowed ◌>>=◌
  wait_n n = do b ← ask (out.wait_n n); allowed b

-- `nil2Empty`
unfoldable pub nil_to_empty : Option Bytes → Bytes
nil_to_empty none = []
nil_to_empty (some v) = v
