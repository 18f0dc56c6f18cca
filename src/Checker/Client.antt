-- ===== src/Checker/Client.antt =====
-- checker/pkg/client.go: a Redis Cluster client that follows redirections.
pub mod Round
pub mod Exec
pub mod Moved
pub mod Methods
pub mod Store
pub mod Chain
use undermoon_operator.Prelude.{
  ℕ, zero, Option, none, some, List, [], ◌∷◌, ◌++◌, Bytes, codes, bytes_eq, find, insert, Bool,
  true, false, not, ◌&&◌, ◌||◌, if◌then◌else◌, ◌==◌, ◌⊎◌, inl, inr, suc,
}

-- What the client sends; `lua_mget` and `lua_mset` stand for `EVAL` with the two scripts.
pub data Command : Type 0 where
  get : Bytes → Command
  set : Bytes → Bytes → Command
  del mget mset lua_mget : List Bytes → Command
  lua_mset : List Bytes → List Bytes → Command
  umctl_info : Command

-- A reply: a text, an array of texts and nils, or anything else.
pub data Reply : Type 0 where
  text : Bytes → Reply
  texts : List (Option Bytes) → Reply
  other : Reply

-- `redis.Nil`, or an error with its message.
pub data RedisError : Type 0 where
  nil_reply : RedisError
  message : Bytes → RedisError

-- The errors of the checker, with what its messages name; `panic` is a failed type assertion or an
-- index out of range.
pub data CheckError : Type 0 where
  exit limiter panic : CheckError
  too_many_redirections : List Bytes → CheckError
  redis : RedisError → CheckError
  invalid_moved : Bytes → CheckError
  invalid_length : ℕ → ℕ → CheckError
  inconsistent : Bytes → Bytes → Bytes → CheckError

pub data Result {ℓ} (A : Type ℓ) : Type ℓ where
  ok : A → Result A
  err : CheckError → Result A

-- `redis.Client`, as the address that it was made for.
pub record RedisClient : Type 0 where
  pub addr : Bytes

-- `CheckerClusterClient`. `env` is the outside; `sent` are the commands sent so far, newest first,
-- each with the address of the client that sent it.
pub record ClusterClient (E : Type 0) : Type 0 where
  pub startup_node : Bytes
  pub debug : Bool
  pub pool : List (Bytes × RedisClient)
  pub env : E
  pub sent : List (Bytes × Command)

-- What the Redis library does with a command that is sent to a node.
abbrev pub Nodes : Type 0 → Type 0
Nodes E = Bytes → Command → E → (Reply × E) ⊎ (RedisError × E)

-- What a method of the client returns: a value or an error, the address, and the client after it.
abbrev pub Outcome : Type 0 → Type 0
Outcome E = (Result Reply × Bytes) × ClusterClient E

abbrev pub Next : Type 0 → Type 0
Next E = Bytes → ClusterClient E → Outcome E

-- `strings.HasPrefix` and `strings.Contains`.
unfoldable pub has_prefix : Bytes → Bytes → Bool
has_prefix s [] = true
has_prefix [] (p ∷ ps) = false
has_prefix (c ∷ s) (p ∷ ps) = c == p && has_prefix s ps

unfoldable pub contains : Bytes → Bytes → Bool
unfolding has_prefix
contains [] p = has_prefix [] p
contains (c ∷ s) p = has_prefix (c ∷ s) p || contains s p

-- `strings.Split` by one byte: the first part, and the others.
unfoldable pub split : ℕ → Bytes → Bytes × List Bytes
split c [] = ([], [])
split c (x ∷ xs) =
    let (first, others) = split c xs in if x == c then ([], first ∷ others) else (x ∷ first, others)

-- `err.Error()`
unfoldable pub error_text : RedisError → Bytes
error_text nil_reply = codes "redis: nil"
error_text (message m) = m

unfoldable pub third_part : Bytes → Bytes × List Bytes → Result Bytes
third_part e (a, b ∷ c ∷ []) = ok c
third_part e _ = err (invalid_moved e)

unfoldable pub parse_moved : RedisError → Result Bytes
unfolding contains error_text third_part split
parse_moved error =
    let e : Bytes = error_text error in
    if not (contains e (codes "MOVED")) then err (redis error) else third_part e (split b' ' e)

module _ {E : Type 0} where
  unfoldable pub pooled :
      Bytes → ClusterClient E → Option RedisClient → RedisClient × ClusterClient E
  pooled address client (some c) = (c, client)
  pooled address client none =
      let c : RedisClient = record { addr = address } in
      (c, record client { pool = insert address c client.pool })

  unfoldable pub get_or_create_client : Bytes → ClusterClient E → RedisClient × ClusterClient E
  unfolding pooled
  get_or_create_client address client = pooled address client (find address client.pool)

  abbrev pub after_sending : RedisClient → Command → E → ClusterClient E → ClusterClient E
  after_sending c cmd e client = record client { env = e; sent = (c.addr, cmd) ∷ client.sent }

module _ {E : Type 0} (nodes : Nodes E) where
  record_sent :
      RedisClient
      → Command
      → ClusterClient E
      → (Reply × E) ⊎ (RedisError × E)
      → (Reply ⊎ RedisError) × ClusterClient E
  record_sent c cmd client (inl (r, e)) = (inl r, after_sending c cmd e client)
  record_sent c cmd client (inr (x, e)) = (inr x, after_sending c cmd e client)

  -- A command on one connection, `sendFunc(c)`, and `c.Process`.
  unfoldable pub process :
      RedisClient → Command → ClusterClient E → (Reply ⊎ RedisError) × ClusterClient E
  unfolding record_sent
  process c cmd client = record_sent c cmd client (nodes c.addr cmd client.env)

  -- `err` after `sendUmctlInfo`
  unfoldable pub after_info : Bytes → Next E → (Reply ⊎ RedisError) × ClusterClient E → Outcome E
  after_info address next (inl r, client) = next address client
  after_info address next (inr x, client) = ((err (redis x), address), client)

  unfoldable pub send_umctl_info : ℕ → RedisClient → Bytes → Next E → ClusterClient E → Outcome E
  unfolding after_info process
  send_umctl_info i c address next client =
      if client.debug && not (i == 0)
      then after_info address next (process c umctl_info client)
      else next address client

  unfoldable pub redirect : ℕ → RedisClient → Next E → ClusterClient E → Result Bytes → Outcome E
  unfolding send_umctl_info
  redirect i c next client (err x) = ((err x, []), client)
  redirect i c next client (ok address) = send_umctl_info i c address next client

  -- What a round does with the reply: `next` is the rest of the loop.
  unfoldable pub settle :
      ℕ → RedisClient → Bytes → Next E → (Reply ⊎ RedisError) × ClusterClient E → Outcome E
  unfolding redirect parse_moved
  settle i c address next (inl r, client) = ((ok r, address), client)
  settle i c address next (inr x, client) = redirect i c next client (parse_moved x)

  -- Round `i`, with `left` rounds after it.
  unfoldable pub exec_loop :
      (left i : ℕ) → List Bytes → Bytes → RedisClient → Command → ClusterClient E → Outcome E
  unfolding settle process get_or_create_client
  exec_loop zero i tried address c cmd client =
      settle i c address (λ a s. ((err (too_many_redirections tried), a), s)) (process c cmd client)
  exec_loop (suc left) i tried address c cmd client =
      settle i c address
        (λ a s.
          let (d, s2) = get_or_create_client a s in
          exec_loop left (suc i) (tried ++ a ∷ []) a d cmd s2)
        (process c cmd client)

  -- Five rounds.
  unfoldable pub exec : Command → ClusterClient E → Outcome E
  unfolding exec_loop get_or_create_client
  exec cmd client =
      let (c, s) = get_or_create_client client.startup_node client in
      exec_loop 4 0 (client.startup_node ∷ []) client.startup_node c cmd s
