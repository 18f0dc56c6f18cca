-- ===== src/Controllers/CoordinatorClient.antt =====
-- controllers/coordinator_client.go and the `redisClientPool` of controllers/utils.go: how a coordinator
-- is told the address of the broker. This is an implementation of `set_brokers` of the outside, whose
-- environment holds the pool.
use undermoon_operator.Prelude.{
  Option, none, some, List, [], ◌∷◌, Bytes, codes, find, insert, find-insert, eq_of_bytes_eq, ◌≡◌,
  ap, arith, Option-cases, inl, inr,
}
use undermoon_operator.Controllers.Io.{Result}

-- `redis.Client`, as the address that it was made for.
record RedisClient : Type 0 where
  addr : Bytes

-- `redisClientPool`; its lock makes each call one step.
abbrev RedisClientPool : Type 0
RedisClientPool = List (Bytes × RedisClient)

abbrev new_redis_client_pool : RedisClientPool
new_redis_client_pool = []

pooled_client : Bytes → RedisClientPool → Option RedisClient → RedisClient × RedisClientPool
pooled_client address pool (some client) = (client, pool)
pooled_client address pool none =
    let client : RedisClient = record { addr = address } in (client, insert address client pool)

get_client : Bytes → RedisClientPool → RedisClient × RedisClientPool
unfolding pooled_client
get_client address pool = pooled_client address pool (find address pool)

module _ {E : Type 0} (process : Bytes → List Bytes → E → Result (Unit {0}) × E) where
  -- `coordinatorClient.setBrokerAddress`; `process` is the library's, on the connection of an address.
  abbrev client_set_broker_address : RedisClient → Bytes → E → Result (Unit {0}) × E
  client_set_broker_address client broker_address e =
      process client.addr (codes "CONFIG" ∷ codes "SET" ∷ codes "brokers" ∷ broker_address ∷ []) e

  pool_set_broker_address :
      Bytes → Bytes → RedisClientPool × E → Result (Unit {0}) × (RedisClientPool × E)
  unfolding get_client
  pool_set_broker_address coord_address broker_address (pool, e) =
      let (client, pool2) = get_client coord_address pool in
      let (r, e2) = client_set_broker_address client broker_address e in (r, (pool2, e2))

-- Each client of the pool is the one of its address.
abbrev IsPooled : RedisClientPool → Type 0
IsPooled pool = (a : Bytes) (c : RedisClient) → find a pool ≡ some c → c.addr ≡ a

addr-get_client :
    (address : Bytes) (pool : RedisClientPool)
    → IsPooled pool
    → (get_client address pool).0.addr ≡ address
unfolding get_client pooled_client
addr-get_client address pool h = elim (Option-cases (find address pool)) [
  | inl q ↦ ground arith
  | inr (c, q) ↦ ground (arith, h address c)
]

get_client-IsPooled :
    (address : Bytes) (pool : RedisClientPool)
    → IsPooled pool
    → IsPooled (get_client address pool).1
unfolding get_client pooled_client
get_client-IsPooled address pool h a c q =
    ground (
      arith,
      h a c,
      find-insert address a (record { addr = address }) pool,
      eq_of_bytes_eq address a,
    )

module _ {E : Type 0} (process : Bytes → List Bytes → E → Result (Unit {0}) × E) where
  -- From a pool with each client under its address, the command goes to the coordinator that was asked
  -- for and names the broker, its result is returned, and the pool stays so.
  pool_set_broker_address-IsPooled :
      (coord_address broker_address : Bytes) (pool : RedisClientPool) (e : E)
      → IsPooled pool
      → ((pool_set_broker_address process coord_address broker_address (pool, e)).0
          ≡ (process coord_address
              (codes "CONFIG" ∷ codes "SET" ∷ codes "brokers" ∷ broker_address ∷ [])
              e).0)
        × IsPooled (pool_set_broker_address process coord_address broker_address (pool, e)).1.0
  unfolding pool_set_broker_address
  pool_set_broker_address-IsPooled coord_address broker_address pool e h = (
    ap (λ a. (process a (codes "CONFIG" ∷ codes "SET" ∷ codes "brokers" ∷ broker_address ∷ []) e).0)
        (addr-get_client coord_address pool h),
    get_client-IsPooled coord_address pool h,
  )
