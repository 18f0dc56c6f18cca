-- ===== src/Checker/Client/Store.antt =====
-- checker/pkg/client.go: what a call returns when the nodes are one store of keys and values.
use mathlib.Core.Path.{subst}
use undermoon_operator.Prelude.{
  ℕ, suc, zero, List, [], ◌∷◌, ◌++◌, Bytes, false, Option, none, some, ◌≡◌, refl, ◌⊎◌, inl, inr,
  arith, if◌then◌else◌, sym, ◌∙◌, ap, map, bytes_eq,
}
use undermoon_operator.Checker.Client.{
  Command, get, set, del, mget, mset, lua_mget, lua_mset, umctl_info, Reply, text, texts,
  too_many_redirections, RedisError, nil_reply, CheckError, redis, invalid_moved, Result, ok, err,
  RedisClient, ClusterClient, Nodes, get_or_create_client, exec_loop, exec, parse_moved, third_part,
  error_text, split, after_sending,
}
use undermoon_operator.Checker.Client.Round.{settle_rule}
use undermoon_operator.Checker.Client.Exec.{sent-get_or_create_client}

-- The value of each key, empty for a key that is missing.
abbrev pub Store : Type 0
Store = Bytes → Bytes

unfoldable pub put : Bytes → Bytes → Store → Store
put k v store j = if bytes_eq k j then v else store j

-- `MSET` of its arguments, `SET` of each key, `DEL` of each key.
unfoldable pub put_arguments : List Bytes → Store → Store
unfolding put
put_arguments (k ∷ v ∷ l) store = put_arguments l (put k v store)
put_arguments _ store = store

unfoldable pub put_each : List Bytes → List Bytes → Store → Store
unfolding put
put_each (k ∷ ks) (v ∷ vs) store = put_each ks vs (put k v store)
put_each _ _ store = store

unfoldable pub remove : List Bytes → Store → Store
unfolding put
remove [] store = store
remove (k ∷ ks) store = remove ks (put k [] store)

abbrev pub value_of : Option Bytes → Bytes
value_of none = []
value_of (some v) = v

-- The values of `keys`, a nil for a missing one.
abbrev pub IsRead : List Bytes → Store → Reply → Type 0
IsRead keys store (texts vs) = map value_of vs ≡ map store keys
IsRead keys store r = ⊥

-- `Applied cmd s r t`: the command takes the store `s` to `t`, with the reply `r`.
abbrev pub Applied : Command → Store → Reply → Store → Type 0
Applied (get k) s r t = (r ≡ text (s k)) × (t ≡ s)
Applied (set k v) s r t = t ≡ put k v s
Applied (del ks) s r t = t ≡ remove ks s
Applied (mget ks) s r t = IsRead ks s r × (t ≡ s)
Applied (mset l) s r t = t ≡ put_arguments l s
Applied (lua_mget ks) s r t = IsRead ks s r × (t ≡ s)
Applied (lua_mset ks vs) s r t = t ≡ put_each ks vs s
Applied umctl_info s r t = t ≡ s

-- The nodes together are a store: a reply is the command's, a redirection changes nothing, and a
-- `GET` fails with `redis.Nil` for a missing key alone.
pub record IsHonest {E : Type 0} (nodes : Nodes E) (store : E → Store) : Type 0 where
  pub answers :
      {a : Bytes} {cmd : Command} {d e : E} {r : Reply}
      → nodes a cmd d ≡ inl (r, e)
      → Applied cmd (store d) r (store e)
  pub redirects :
      {a b : Bytes} {cmd : Command} {d e : E} {x : RedisError}
      → nodes a cmd d ≡ inr (x, e)
      → parse_moved x ≡ ok b
      → store e ≡ store d
  pub misses :
      {a k : Bytes} {d e : E}
      → nodes a (get k) d ≡ inr (nil_reply, e)
      → (store d k ≡ []) × (store e ≡ store d)

module _ {E : Type 0} (nodes : Nodes E) (store : E → Store) where
  -- A node refused the command with the error `x`, and the command took the store `s` to `t`.
  pub record IsRefused (cmd : Command) (s : Store) (x : RedisError) (t : Store) : Type 0 where
    pub node : Bytes
    pub before : E
    pub after : E
    pub refuses : nodes node cmd before ≡ inr (x, after)
    pub at_first : store before ≡ s
    pub at_last : store after ≡ t

  -- The errors that a call can return: too many redirections, of which none changed anything, and
  -- the error of a node, as it is or as a redirection that names no address.
  abbrev pub Failed : Command → Store → CheckError → Store → Type 0
  Failed cmd s (too_many_redirections l) t = t ≡ s
  Failed cmd s (redis x) t = IsRefused cmd s x t
  Failed cmd s (invalid_moved m) t = (x : RedisError) × (m ≡ error_text x) × IsRefused cmd s x t
  Failed cmd s y t = ⊥

  abbrev pub Ended : Command → Store → Result Reply → Store → Type 0
  Ended cmd s (ok r) t = Applied cmd s r t
  Ended cmd s (err y) t = Failed cmd s y t

third_part-err :
    (m : Bytes) (parts : Bytes × List Bytes) (y : CheckError)
    → third_part m parts ≡ err y
    → y ≡ invalid_moved m
unfolding third_part
third_part-err m (a, []) y h = ground arith
third_part-err m (a, b ∷ []) y h = ground arith
third_part-err m (a, b ∷ c ∷ []) y h = ground arith
third_part-err m (a, b ∷ c ∷ d ∷ l) y h = ground arith

parse_moved-err :
    (x : RedisError) (y : CheckError)
    → parse_moved x ≡ err y
    → (y ≡ redis x) ⊎ (y ≡ invalid_moved (error_text x))
unfolding parse_moved
parse_moved-err x y h = ground (arith, third_part-err (error_text x) (split b' ' (error_text x)) y)

module _ {E : Type 0} {nodes : Nodes E} {store : E → Store} (honest : IsHonest nodes store) where
  -- An error that is no redirection.
  Failed-parse_moved :
      {a : Bytes} (cmd : Command) {d e : E} (x : RedisError) (y : CheckError)
      → nodes a cmd d ≡ inr (x, e)
      → parse_moved x ≡ err y
      → Failed nodes store cmd (store d) y (store e)
  Failed-parse_moved {a = a} cmd {d = d} {e = e} x y h k =
      let refused : IsRefused nodes store cmd (store d) x (store e) = record {
        node = a;
        before = d;
        after = e;
        refuses = h;
        at_first = refl;
        at_last = refl;
      } in
      elim (parse_moved-err x y k) [
        | inl q ↦ subst (λ z. Failed nodes store cmd (store d) z (store e)) (sym q) refused
        | inr q ↦
            subst (λ z. Failed nodes store cmd (store d) z (store e)) (sym q) (x, refl, refused)
      ]

  exec_loop-Ended :
      (left i : ℕ) (tried : List Bytes) (a : Bytes) (c : RedisClient) (cmd : Command)
      (s : ClusterClient E)
      → s.debug ≡ false
      → Ended nodes store cmd
          (store s.env)
          (exec_loop nodes left i tried a c cmd s).0.0
          (store (exec_loop nodes left i tried a c cmd s).1.env)
        × ((exec_loop nodes left i tried a c cmd s).1.debug ≡ false)
  unfolding exec_loop
  exec_loop-Ended zero i tried a c cmd s q =
      settle_rule nodes c cmd s
        {P = λ o. Ended nodes store cmd (store s.env) o.0.0 (store o.1.env) × (o.1.debug ≡ false)}
        (record {
          answered = λ r e h. (honest.answers h, q);
          refused = λ x e y h k. (Failed-parse_moved cmd x y h k, q);
          moved = λ x e b h k. (honest.redirects h k, q);
          moved_with_info = λ x b r d e g h k m. ground arith;
          info_failed = λ x y b d e g h k m. ground arith;
        })
  exec_loop-Ended (suc left) i tried a c cmd s q =
      settle_rule nodes c cmd s
        {P = λ o. Ended nodes store cmd (store s.env) o.0.0 (store o.1.env) × (o.1.debug ≡ false)}
        (record {
          answered = λ r e h. (honest.answers h, q);
          refused = λ x e y h k. (Failed-parse_moved cmd x y h k, q);
          moved = λ x e b h k.
              let t : ClusterClient E = after_sending c cmd e s in
              let (d, u) = get_or_create_client b t in
              let same = sent-get_or_create_client b t in
              let o = exec_loop nodes left (suc i) (tried ++ b ∷ []) b d cmd u in
              subst (λ z. Ended nodes store cmd z o.0.0 (store o.1.env) × (o.1.debug ≡ false))
                (ap store same.2 ∙ honest.redirects h k)
                (exec_loop-Ended left (suc i) (tried ++ b ∷ []) b d cmd u (same.1 ∙ q));
          moved_with_info = λ x b r d e g h k m. ground arith;
          info_failed = λ x y b d e g h k m. ground arith;
        })

  -- When the nodes are one store, of a client that is not in debug mode, whatever the redirections:
  -- if a call returns a reply, the store after it is the one that its command makes, and the reply
  -- to a command that reads is what the store holds. If it returns an error, it is that of too many
  -- redirections, with the store unchanged, or the error with which a node refused the command,
  -- received at the unchanged store, or an invalid redirection with the text of such an error; the
  -- store after the call is then the one that the refusal left. No other error is returned, and the
  -- client is still not in debug mode.
  pub exec-Ended :
      (cmd : Command) (s : ClusterClient E)
      → s.debug ≡ false
      → Ended nodes store cmd (store s.env) (exec nodes cmd s).0.0 (store (exec nodes cmd s).1.env)
        × ((exec nodes cmd s).1.debug ≡ false)
  unfolding exec
  exec-Ended cmd s q =
      let (c, u) = get_or_create_client s.startup_node s in
      let same = sent-get_or_create_client s.startup_node s in
      let o = exec nodes cmd s in
      subst (λ z. Ended nodes store cmd z o.0.0 (store o.1.env) × (o.1.debug ≡ false))
        (ap store same.2)
        (exec_loop-Ended 4 0 (s.startup_node ∷ []) s.startup_node c cmd u (same.1 ∙ q))
