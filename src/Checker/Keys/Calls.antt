-- ===== src/Checker/Keys/Calls.antt =====
-- checker/pkg/kv.go: the calls of the client when the nodes are one store.
use mathlib.Core.Path.{subst}
use undermoon_operator.Prelude.{
  List, [], ◌∷◌, Bytes, false, Option, none, some, ◌≡◌, ◌∙◌, refl, arith, map, sym, ap,
}
use undermoon_operator.Checker.Client.{
  Nodes, Command, Reply, get, set, del, mget, mset, lua_mget, lua_mset, CheckError, inconsistent,
  ok, err, exec, text, texts, redis, nil_reply, Outcome, other, message, exit, limiter, panic,
  too_many_redirections, invalid_moved, invalid_length,
}
use undermoon_operator.Checker.Client.Store.{
  IsRefused, IsHonest, Store, Applied, exec-Ended, Ended, value_of, IsRead, Failed, put, remove,
  put_arguments, put_each,
}
use undermoon_operator.Checker.Client.Methods.{
  client_get, client_set, client_del, client_mget, client_mset, client_lua_mget, client_lua_mset,
  got, got_all, error_of,
}
use undermoon_operator.Checker.Keys.{
  Outside, KvChecker, call, write, written, named, nil_to_empty, with_client,
}
use undermoon_operator.Checker.Keys.Sound.{
  Sound, After, Holds, IsFiled, IsFiled-with_client, IsFair, NoReport,
}

module _ {E : Type 0} (nodes : Nodes E) (store : E → Store) where
  NoReport-Failed :
      (cmd : Command) (t u : Store) (y : CheckError) → Failed nodes store cmd t y u → NoReport y
  NoReport-Failed cmd t u (too_many_redirections l) p = tt
  NoReport-Failed cmd t u (redis x) p = tt
  NoReport-Failed cmd t u (invalid_moved m) p = tt
  NoReport-Failed cmd t u exit p = absurd p
  NoReport-Failed cmd t u limiter p = absurd p
  NoReport-Failed cmd t u panic p = absurd p
  NoReport-Failed cmd t u (invalid_length m n) p = absurd p
  NoReport-Failed cmd t u (inconsistent k v w) p = absurd p

  -- `redis.Nil` of a `GET`: the key is missing.
  misses-IsRefused :
      (honest : IsHonest nodes store) (k : Bytes) (t u : Store)
      → IsRefused nodes store (get k) t nil_reply u
      → (t k ≡ []) × (u ≡ t)
  misses-IsRefused honest k t u r =
      let (missing, same) = honest.misses r.refuses in
      (subst (λ z. z k ≡ []) r.at_first missing, sym r.at_last ∙ (same ∙ r.at_first))

nil_to_empty-value_of : (vs : List (Option Bytes)) → map nil_to_empty vs ≡ map value_of vs
unfolding nil_to_empty
nil_to_empty-value_of [] = refl
nil_to_empty-value_of (none ∷ vs) = ap (λ l. [] ∷ l) (nil_to_empty-value_of vs)
nil_to_empty-value_of (some v ∷ vs) = ap (λ l. v ∷ l) (nil_to_empty-value_of vs)

module _ {E : Type 0} {out : Outside E} {store : E → Store} {luas : List Bytes}
    (fair : IsFair out store) {s : Store} where
  exec-Holds :
      {t : Store} (cmd : Command) (ck : KvChecker E)
      → Holds store luas s t ck
      → Ended out.nodes store cmd t
          (exec out.nodes cmd ck.client).0.0
          (store (exec out.nodes cmd ck.client).1.env)
        × ((exec out.nodes cmd ck.client).1.debug ≡ false)
  exec-Holds cmd ck p =
      let o = exec out.nodes cmd ck.client in
      subst (λ z. Ended out.nodes store cmd z o.0.0 (store o.1.env) × (o.1.debug ≡ false)) p.0
        (exec-Ended fair.honest cmd ck.client p.1)

  -- A `GET` reads the value of its key.
  call_got :
      (t : Store) (k : Bytes) (ck : KvChecker E) (o : Outcome E)
      → Ended out.nodes store (get k) t o.0.0 (store o.1.env) × (o.1.debug ≡ false)
      → IsFiled store luas s [] ck
      → After
          (λ va c. (nil_to_empty va.0 ≡ t k) × Holds store luas s t c)
          (named (got o).0.1 (got o).0.0, with_client ck (got o).1)
  unfolding named got nil_to_empty
  call_got t k ck ((ok (text v), a), u) p f =
      (ground (arith, p.0.0), (p.0.1, p.1, IsFiled-with_client store luas f))
  call_got t k ck ((ok (texts vs), a), u) p f = tt
  call_got t k ck ((ok other, a), u) p f = tt
  call_got t k ck ((err (redis nil_reply), a), u) p f =
      let (missing, same) = misses-IsRefused out.nodes store fair.honest k t (store u.env) p.0 in
      (sym missing, (same, p.1, IsFiled-with_client store luas f))
  call_got t k ck ((err (redis (message m)), a), u) p f = tt
  call_got t k ck ((err exit, a), u) p f = absurd p.0
  call_got t k ck ((err limiter, a), u) p f = absurd p.0
  call_got t k ck ((err panic, a), u) p f = absurd p.0
  call_got t k ck ((err (invalid_length m n), a), u) p f = absurd p.0
  call_got t k ck ((err (inconsistent m n w), a), u) p f = absurd p.0
  call_got t k ck ((err (too_many_redirections l), a), u) p f = tt
  call_got t k ck ((err (invalid_moved m), a), u) p f = tt

  pub Sound-client_get :
      {t : Store} (k : Bytes)
      → Sound
          (Holds store luas s t)
          (call (client_get out.nodes k))
          (λ va c. (nil_to_empty va.0 ≡ t k) × Holds store luas s t c)
  unfolding call client_get
  Sound-client_get {t = t} k = record {
    at = λ ck p. call_got t k ck (exec out.nodes (get k) ck.client) (exec-Holds (get k) ck p) p.2;
  }

  -- `MGET`, and the script that does the same: the values of the keys.
  call_got_all :
      (cmd : Command) (keys : List Bytes) (t : Store) (ck : KvChecker E) (o : Outcome E)
      → ((r : Reply) (u : Store) → Applied cmd t r u → IsRead keys t r × (u ≡ t))
      → Ended out.nodes store cmd t o.0.0 (store o.1.env) × (o.1.debug ≡ false)
      → IsFiled store luas s [] ck
      → After
          (λ va c. (map nil_to_empty va.0 ≡ map t keys) × Holds store luas s t c)
          (named (got_all o).0.1 (got_all o).0.0, with_client ck (got_all o).1)
  unfolding named got_all
  call_got_all cmd keys t ck ((ok (texts vs), a), u) h p f =
      let (read, same) = h (texts vs) (store u.env) p.0 in
      (nil_to_empty-value_of vs ∙ read, (same, p.1, IsFiled-with_client store luas f))
  call_got_all cmd keys t ck ((ok (text v), a), u) h p f = tt
  call_got_all cmd keys t ck ((ok other, a), u) h p f = tt
  call_got_all cmd keys t ck ((err y, a), u) h p f =
      NoReport-Failed out.nodes store cmd t (store u.env) y p.0

  pub Sound-client_mget :
      {t : Store} (keys : List Bytes)
      → Sound
          (Holds store luas s t)
          (call (client_mget out.nodes keys))
          (λ va c. (map nil_to_empty va.0 ≡ map t keys) × Holds store luas s t c)
  unfolding call client_mget
  Sound-client_mget {t = t} keys = record {
    at = λ ck p.
        call_got_all (mget keys) keys t ck (exec out.nodes (mget keys) ck.client) (λ r u q. q)
          (exec-Holds (mget keys) ck p) p.2;
  }

  pub Sound-client_lua_mget :
      {t : Store} (keys : List Bytes)
      → Sound
          (Holds store luas s t)
          (call (client_lua_mget out.nodes keys))
          (λ va c. (map nil_to_empty va.0 ≡ map t keys) × Holds store luas s t c)
  unfolding call client_lua_mget
  Sound-client_lua_mget {t = t} keys = record {
    at = λ ck p.
        call_got_all (lua_mget keys) keys t ck (exec out.nodes (lua_mget keys) ck.client)
          (λ r u q. q) (exec-Holds (lua_mget keys) ck p) p.2;
  }

  -- A command that writes: the store is the one that the command makes.
  call_written :
      (cmd : Command) (t u : Store) (ck : KvChecker E) (o : Outcome E)
      → ((r : Reply) (v : Store) → Applied cmd t r v → v ≡ u)
      → Ended out.nodes store cmd t o.0.0 (store o.1.env) × (o.1.debug ≡ false)
      → IsFiled store luas s [] ck
      → After
          (λ x c. Holds store luas s u c)
          (written (error_of o).0.0, with_client ck (error_of o).1)
  unfolding written error_of
  call_written cmd t u ck ((ok r, a), v) h p f =
      (h r (store v.env) p.0, p.1, IsFiled-with_client store luas f)
  call_written cmd t u ck ((err y, a), v) h p f =
      NoReport-Failed out.nodes store cmd t (store v.env) y p.0

  pub Sound-client_set :
      {t : Store} (k v : Bytes)
      → Sound
          (Holds store luas s t)
          (write (client_set out.nodes k v))
          (λ x c. Holds store luas s (put k v t) c)
  unfolding write client_set
  Sound-client_set {t = t} k v = record {
    at = λ ck p.
        call_written (set k v) t (put k v t) ck (exec out.nodes (set k v) ck.client) (λ r u q. q)
          (exec-Holds (set k v) ck p) p.2;
  }

  pub Sound-client_del :
      {t : Store} (keys : List Bytes)
      → Sound
          (Holds store luas s t)
          (write (client_del out.nodes keys))
          (λ x c. Holds store luas s (remove keys t) c)
  unfolding write client_del
  Sound-client_del {t = t} keys = record {
    at = λ ck p.
        call_written (del keys) t (remove keys t) ck (exec out.nodes (del keys) ck.client)
          (λ r u q. q) (exec-Holds (del keys) ck p) p.2;
  }

  pub Sound-client_mset :
      {t : Store} (l : List Bytes)
      → Sound
          (Holds store luas s t)
          (write (client_mset out.nodes l))
          (λ x c. Holds store luas s (put_arguments l t) c)
  unfolding write client_mset
  Sound-client_mset {t = t} l = record {
    at = λ ck p.
        call_written (mset l) t (put_arguments l t) ck (exec out.nodes (mset l) ck.client)
          (λ r u q. q) (exec-Holds (mset l) ck p) p.2;
  }

  pub Sound-client_lua_mset :
      {t : Store} (keys values : List Bytes)
      → Sound
          (Holds store luas s t)
          (write (client_lua_mset out.nodes keys values))
          (λ x c. Holds store luas s (put_each keys values t) c)
  unfolding write client_lua_mset
  Sound-client_lua_mset {t = t} keys values = record {
    at = λ ck p.
        call_written (lua_mset keys values) t (put_each keys values t) ck
          (exec out.nodes (lua_mset keys values) ck.client) (λ r u q. q)
          (exec-Holds (lua_mset keys values) ck p) p.2;
  }
