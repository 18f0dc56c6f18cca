-- ===== src/Tests/Cluster.antt =====
-- checker/pkg/client.go and kv.go on two nodes, the first of which redirects every command to the second.
use mathlib.Core.Path.{subst}
use undermoon_operator.Prelude.{
  ℕ, List, [], ◌∷◌, ◌++◌, has_byte, dec, Bytes, codes, bytes_eq, eq_of_bytes_eq, bytes_eq_self,
  find, Bool, true, false, some, ◌≡◌, ◌≢◌, refl, ◌⊎◌, inl, inr, ◌↔◌, arith, map, ap, sym,
  if◌then◌else◌, ◌==◌,
}
use undermoon_operator.Checker.Client.{
  Command, get, set, del, mget, mset, lua_mget, lua_mset, umctl_info, Reply, text, texts, other,
  RedisError, redis, too_many_redirections, message, nil_reply, ClusterClient, Nodes, exec,
  parse_moved, ok, err, inconsistent, contains, has_prefix, error_text, third_part, split,
}
use undermoon_operator.Checker.Client.Exec.{Sent, exec-sent, IsPooled, IsAnswered, exec-IsAnswered}
use undermoon_operator.Checker.Client.Chain.{
  here, hop, exec-Chain-answered, exec-Chain-refused, exec-Chain-exhausted,
}
use undermoon_operator.Checker.Client.Moved.{parse_moved-message}
use undermoon_operator.Checker.Client.Store.{
  Store, put, put_arguments, put_each, remove, IsHonest, Applied, Ended, exec-Ended, value_of,
}
use undermoon_operator.Checker.Client.Methods.{new_checker_cluster_client}
use undermoon_operator.Checker.Slot.{slot}
use undermoon_operator.Checker.Keys.{Outside, KvChecker, pos}
use undermoon_operator.Checker.Keys.Checks.{check_key_value, loop_check}
use undermoon_operator.Checker.Keys.Sound.{Among, After, IsFair, has_key}
use undermoon_operator.Checker.Keys.Memory.{Ready}
use undermoon_operator.Checker.Keys.Honest.{check_key_value-Ready, loop_check-no_report}

abbrev first_node : Bytes
first_node = codes "a:1"

abbrev second_node : Bytes
second_node = codes "b:1"

abbrev moved_text : Bytes
moved_text = codes "MOVED 7 b:1"

-- The second node, which keeps the whole store.
abbrev answer : Command → Store → Reply × Store
answer (get k) d = (text (d k), d)
answer (set k v) d = (other, put k v d)
answer (del ks) d = (other, remove ks d)
answer (mget ks) d = (texts (map (λ k. some (d k)) ks), d)
answer (mset l) d = (other, put_arguments l d)
answer (lua_mget ks) d = (texts (map (λ k. some (d k)) ks), d)
answer (lua_mset ks vs) d = (other, put_each ks vs d)
answer umctl_info d = (other, d)

abbrev result : Bool → Command → Store → (Reply × Store) ⊎ (RedisError × Store)
result true cmd d = inr (message moved_text, d)
result false cmd d = inl (answer cmd d)

abbrev two_nodes : Nodes Store
two_nodes a cmd d = result (bytes_eq a first_node) cmd d

value_of-some : (d : Store) (ks : List Bytes) → map value_of (map (λ k. some (d k)) ks) ≡ map d ks
value_of-some d [] = refl
value_of-some d (k ∷ ks) = ap (λ l. d k ∷ l) (value_of-some d ks)

answer-Applied : (cmd : Command) (d : Store) → Applied cmd d (answer cmd d).0 (answer cmd d).1
answer-Applied (get k) d = (refl, refl)
answer-Applied (set k v) d = refl
answer-Applied (del ks) d = refl
answer-Applied (mget ks) d = (value_of-some d ks, refl)
answer-Applied (mset l) d = refl
answer-Applied (lua_mget ks) d = (value_of-some d ks, refl)
answer-Applied (lua_mset ks vs) d = refl
answer-Applied umctl_info d = refl

-- What a node's result is made of.
abbrev outside_of : (Reply × Store) ⊎ (RedisError × Store) → Store
outside_of (inl p) = p.1
outside_of (inr p) = p.1

abbrev reply_or : Reply × Store → (Reply × Store) ⊎ (RedisError × Store) → Reply × Store
reply_or e (inl p) = p
reply_or e (inr p) = e

node-answers :
    (b : Bool) (cmd : Command) (d e : Store) (r : Reply)
    → result b cmd d ≡ inl (r, e)
    → Applied cmd d r e
node-answers true cmd d e r h = ground arith
node-answers false cmd d e r h =
    subst (λ p. Applied cmd d p.0 p.1) (ap (reply_or (r, e)) h) (answer-Applied cmd d)

node-redirects :
    (b : Bool) (cmd : Command) (d e : Store) (x : RedisError) → result b cmd d ≡ inr (x, e) → e ≡ d
node-redirects true cmd d e x h = sym (ap outside_of h)
node-redirects false cmd d e x h = ground arith

node-misses : (b : Bool) (cmd : Command) (d e : Store) → result b cmd d ≡ inr (nil_reply, e) → ⊥
node-misses true cmd d e h = ground arith
node-misses false cmd d e h = ground arith

abbrev pub same_store : Store → Store
same_store d = d

two_nodes-IsHonest : IsHonest two_nodes same_store
two_nodes-IsHonest = record {
  answers = λ {a} {cmd} {d} {e} {r} h. node-answers (bytes_eq a first_node) cmd d e r h;
  redirects = λ {a} {b} {cmd} {d} {e} {x} h p. node-redirects (bytes_eq a first_node) cmd d e x h;
  misses = λ {a} {k} {d} {e} h. absurd (node-misses (bytes_eq a first_node) (get k) d e h);
}

abbrev pub start : ClusterClient Store
start = new_checker_cluster_client first_node false (λ k. [])

start-IsPooled : IsPooled start
unfolding find
start-IsPooled a c h = ground arith

second_node_plain : has_byte b' ' second_node ≡ false
unfolding has_byte
second_node_plain = refl

moved_to_second : parse_moved (message moved_text) ≡ ok second_node
unfolding parse_moved contains has_prefix error_text third_part split
moved_to_second = refl

first_moves : two_nodes first_node (get (codes "k")) start.env ≡ inr (message moved_text, start.env)
unfolding bytes_eq
first_moves = refl

second_answers : two_nodes second_node (get (codes "k")) start.env ≡ inl (text [], start.env)
unfolding bytes_eq
second_answers = refl

exec-sent_example :
    Sent (get (codes "k")) start.sent 5 0 (exec two_nodes (get (codes "k")) start).1.sent
exec-sent_example = exec-sent two_nodes (get (codes "k")) start

exec-IsAnswered_example :
    IsAnswered two_nodes (get (codes "k")) (exec two_nodes (get (codes "k")) start)
    × IsPooled (exec two_nodes (get (codes "k")) start).1
exec-IsAnswered_example = exec-IsAnswered two_nodes (get (codes "k")) start start-IsPooled

exec-Chain-answered_example :
    ((exec two_nodes (get (codes "k")) start).0 ≡ (ok (text []), second_node))
    × ((exec two_nodes (get (codes "k")) start).1.env ≡ start.env)
exec-Chain-answered_example =
    exec-Chain-answered two_nodes start (hop first_moves moved_to_second here) second_answers
      start-IsPooled refl (omega arith)

-- The second node, without the key.
abbrev missing_key : Nodes Store
missing_key a cmd d =
    if bytes_eq a first_node then inr (message moved_text, d) else inr (nil_reply, d)

missing_moves :
    missing_key first_node (get (codes "k")) start.env ≡ inr (message moved_text, start.env)
unfolding bytes_eq
missing_moves = refl

missing_refuses : missing_key second_node (get (codes "k")) start.env ≡ inr (nil_reply, start.env)
unfolding bytes_eq
missing_refuses = refl

nil_not_moved : parse_moved nil_reply ≡ err (redis nil_reply)
unfolding parse_moved contains has_prefix error_text third_part split
nil_not_moved = refl

exec-Chain-refused_example :
    ((exec missing_key (get (codes "k")) start).0 ≡ (err (redis nil_reply), []))
    × ((exec missing_key (get (codes "k")) start).1.env ≡ start.env)
exec-Chain-refused_example =
    exec-Chain-refused missing_key start (hop missing_moves moved_to_second here) missing_refuses
      nil_not_moved start-IsPooled refl (omega arith)

-- Every node redirects to the second one.
abbrev circular : Nodes Store
circular a cmd d = inr (message moved_text, d)

exec-Chain-exhausted_example :
    ((exec circular (get (codes "k")) start).0 ≡ (
      err (
          too_many_redirections
            (first_node ∷ second_node ∷ second_node ∷ second_node ∷ second_node ∷ [])),
      second_node,
    ))
    × ((exec circular (get (codes "k")) start).1.env ≡ start.env)
exec-Chain-exhausted_example =
    exec-Chain-exhausted circular start
      (hop refl moved_to_second
        (hop refl moved_to_second (hop refl moved_to_second (hop refl moved_to_second here))))
      refl moved_to_second start-IsPooled refl refl

parse_moved-message_example :
    parse_moved (message (codes "MOVED " ++ dec 7 ++ b' ' ∷ second_node)) ≡ ok second_node
parse_moved-message_example = parse_moved-message 7 second_node second_node_plain

exec-Ended_example :
    Ended two_nodes
      (λ d. d)
      (get (codes "k"))
      start.env
      (exec two_nodes (get (codes "k")) start).0.0
      (exec two_nodes (get (codes "k")) start).1.env
    × ((exec two_nodes (get (codes "k")) start).1.debug ≡ false)
exec-Ended_example = exec-Ended two_nodes-IsHonest (get (codes "k")) start refl

-- A range over a list of entries, of which the first of each key counts.
abbrev without : Bytes → List (Bytes × Bytes) → List (Bytes × Bytes)
without j [] = []
without j ((k, v) ∷ l) = if bytes_eq j k then without j l else (k, v) ∷ without j l

abbrev firsts : List (Bytes × Bytes) → List (Bytes × Bytes)
firsts [] = []
firsts ((k, v) ∷ l) = (k, v) ∷ without k (firsts l)

Among-without :
    (j : Bytes) (l : List (Bytes × Bytes)) (k v : Bytes)
    → Among k v (without j l) ↔ (Among k v l × (bytes_eq j k ≡ false))
Among-without j [] k v = ((λ a. absurd a), (λ a. a.0))
Among-without j ((i, w) ∷ l) k v =
    ground (arith, Among-without j l k v, eq_of_bytes_eq j i, bytes_eq_self j)

firsts-Among : (m : List (Bytes × Bytes)) (k v : Bytes) → Among k v (firsts m) ↔ (find k m ≡ some v)
unfolding find
firsts-Among [] k v = ((λ a. absurd a), (λ h. ground arith))
firsts-Among ((j, w) ∷ m) k v =
    ground (
      arith,
      Among-without j (firsts m) k v,
      firsts-Among m k v,
      eq_of_bytes_eq j k,
      bytes_eq_self j,
    )

-- Every round checks with GET, on the slot of the key.
abbrev pub outside : Outside Store
outside = record {
  nodes = two_nodes;
  wait_n = λ n d. (true, d);
  draw = λ d. (pos (slot (codes "k")), d);
  rand = λ d. (3, d);
  now = λ d. (codes "2020", d);
  second = λ d. (0, d);
  nanosecond = λ d. (codes "9", d);
  uuid = λ d. (codes "u", d);
  cancelled = λ d. (false, d);
  visit = λ m d. (firsts m, d);
}

pub outside-IsFair : IsFair outside same_store
outside-IsFair = record {
  honest = two_nodes-IsHonest;
  wait_keeps = λ n d. refl;
  draw_keeps = λ d. refl;
  rand_keeps = λ d. refl;
  now_keeps = λ d. refl;
  second_keeps = λ d. refl;
  nanosecond_keeps = λ d. refl;
  uuid_keeps = λ d. refl;
  cancelled_keeps = λ d. refl;
  visit_keeps = λ m d. refl;
  visits = λ m d k v. firsts-Among m k v;
}

abbrev pub script_keys : List Bytes
script_keys = codes "lua" ∷ []

abbrev pub checker : KvChecker Store
checker = record {
  id = 0;
  client = start;
  keys = λ i. if i == slot (codes "k") then (codes "k", []) ∷ [] else [];
  lua_keys = script_keys;
  lua_value = [];
}

pub checker-filed :
    (i : ℕ) (k v : Bytes)
    → find k (checker.keys i) ≡ some v
    → (slot k ≡ i)
      × (has_key k script_keys ≡ false)
      × ((start.env k ≡ v) ⊎ ((w : Bytes) × Among k w []))
unfolding find has_key bytes_eq
checker-filed i k v h = ground (arith, eq_of_bytes_eq (codes "k") k)

checker-Ready : Ready same_store script_keys checker
checker-Ready = (
  start.env,
  (refl, refl, record { keys_are = refl; filed = checker-filed; lua_filed = λ k h. refl }),
)

check_key_value-Ready_example :
    After (λ x c. Ready same_store script_keys c) (check_key_value outside checker)
check_key_value-Ready_example = check_key_value-Ready outside-IsFair checker checker-Ready

loop_check-no_report_example :
    (loop_check outside 2 checker).0 ≢ err (inconsistent (codes "k") (codes "x") (codes "y"))
loop_check-no_report_example =
    loop_check-no_report outside-IsFair 2 checker (codes "k") (codes "x") (codes "y") checker-Ready
