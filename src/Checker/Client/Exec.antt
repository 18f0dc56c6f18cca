-- ===== src/Checker/Client/Exec.antt =====
-- checker/pkg/client.go: how many commands a call sends, and which address it returns.
use mathlib.Core.Path.{subst}
use undermoon_operator.Prelude.{
  ℕ, suc, zero, ◌+◌, ◌≤◌, List, [], ◌∷◌, ◌++◌, Bytes, Bool, some, ◌≡◌, inl, inr, arith,
  if◌then◌else◌, ◌==◌, find, find-insert, eq_of_bytes_eq, Option-cases, ap, sym, ◌∙◌,
}
use undermoon_operator.Checker.Client.{
  Command, RedisClient, ClusterClient, Nodes, Outcome, pooled, get_or_create_client, exec_loop,
  exec, umctl_info, err, ok, after_sending,
}
use undermoon_operator.Checker.Client.Round.{settle_rule}

module _ {E : Type 0} where
  -- Each connection of the pool is the one of its address.
  abbrev pub IsPooled : ClusterClient E → Type 0
  IsPooled s = (a : Bytes) (c : RedisClient) → find a s.pool ≡ some c → c.addr ≡ a

  pub sent-get_or_create_client :
      (a : Bytes) (s : ClusterClient E)
      → ((get_or_create_client a s).1.sent ≡ s.sent)
        × ((get_or_create_client a s).1.debug ≡ s.debug)
        × ((get_or_create_client a s).1.env ≡ s.env)
  unfolding pooled get_or_create_client
  sent-get_or_create_client a s = ground arith

  pub addr-get_or_create_client :
      (a : Bytes) (s : ClusterClient E) → IsPooled s → (get_or_create_client a s).0.addr ≡ a
  unfolding pooled get_or_create_client
  addr-get_or_create_client a s h = elim (Option-cases (find a s.pool)) [
    | inl q ↦ ground arith
    | inr (c, q) ↦ ground (arith, h a c)
  ]

  pub get_or_create_client-IsPooled :
      (a : Bytes) (s : ClusterClient E) → IsPooled s → IsPooled (get_or_create_client a s).1
  unfolding pooled get_or_create_client
  get_or_create_client-IsPooled a s h b d q =
      ground (arith, h b d, find-insert a b (record { addr = a }) s.pool, eq_of_bytes_eq a b)

-- `Sent cmd old m n log`: what was sent since `old`, in any order, is the command, at most `m`
-- times, and reports, at most `n`.
pub data Sent (cmd : Command) (old : List (Bytes × Command))
    : ℕ → ℕ → List (Bytes × Command) → Type 0 where
  nothing_new : {m n : ℕ} → Sent cmd old m n old
  command :
      {m n : ℕ} {log : List (Bytes × Command)} (a : Bytes)
      → Sent cmd old m n log
      → Sent cmd old (suc m) n ((a, cmd) ∷ log)
  report :
      {m n : ℕ} {log : List (Bytes × Command)} (a : Bytes)
      → Sent cmd old m n log
      → Sent cmd old m (suc n) ((a, umctl_info) ∷ log)

module _ {cmd : Command} {old : List (Bytes × Command)} where
  Sent-command_first :
      (a : Bytes) {m n : ℕ} {log : List (Bytes × Command)}
      → Sent cmd ((a, cmd) ∷ old) m n log
      → Sent cmd old (suc m) n log
  Sent-command_first a nothing_new = command a nothing_new
  Sent-command_first a (command b p) = command b (Sent-command_first a p)
  Sent-command_first a (report b p) = report b (Sent-command_first a p)

  Sent-report_first :
      (a : Bytes) {m n : ℕ} {log : List (Bytes × Command)}
      → Sent cmd ((a, umctl_info) ∷ old) m n log
      → Sent cmd old m (suc n) log
  Sent-report_first a nothing_new = report a nothing_new
  Sent-report_first a (command b p) = command b (Sent-report_first a p)
  Sent-report_first a (report b p) = report b (Sent-report_first a p)

module _ {E : Type 0} (nodes : Nodes E) where
  -- The reports of round `i` and the `left` rounds after it.
  abbrev reports : Bool → ℕ → ℕ → ℕ
  reports debug left i = if debug then (if i == 0 then left else left + 1) else 0

  Sent-get_or_create_client :
      {cmd : Command} (b : Bytes) (t : ClusterClient E) {m n : ℕ} {log : List (Bytes × Command)}
      → Sent cmd (get_or_create_client b t).1.sent m n log
      → Sent cmd t.sent m n log
  Sent-get_or_create_client {cmd = cmd} b t {m = m} {n = n} {log = log} p =
      subst (λ l. Sent cmd l m n log) (sent-get_or_create_client b t).0 p

  exec_loop-Sent :
      (left n i : ℕ) (tried : List Bytes) (a : Bytes) (c : RedisClient) (cmd : Command)
      (s : ClusterClient E)
      → reports s.debug left i ≤ n
      → Sent cmd s.sent (suc left) n (exec_loop nodes left i tried a c cmd s).1.sent
  unfolding exec_loop
  exec_loop-Sent zero zero i tried a c cmd s h =
      settle_rule nodes c cmd s {P = λ o. Sent cmd s.sent (suc zero) zero o.1.sent} (record {
        answered = λ r e p. command c.addr nothing_new;
        refused = λ x e y p k. command c.addr nothing_new;
        moved = λ x e b p k. command c.addr nothing_new;
        moved_with_info = λ x b r f e g p k q. absurd (ground arith);
        info_failed = λ x y b d e g p k q. absurd (ground arith);
      })
  exec_loop-Sent zero (suc n) i tried a c cmd s h =
      settle_rule nodes c cmd s {P = λ o. Sent cmd s.sent (suc zero) (suc n) o.1.sent} (record {
        answered = λ r e p. command c.addr nothing_new;
        refused = λ x e y p k. command c.addr nothing_new;
        moved = λ x e b p k. command c.addr nothing_new;
        moved_with_info = λ x b r f e g p k q. report c.addr (command c.addr nothing_new);
        info_failed = λ x y b d e g p k q. report c.addr (command c.addr nothing_new);
      })
  exec_loop-Sent (suc left) zero i tried a c cmd s h =
      settle_rule nodes c cmd s {P = λ o. Sent cmd s.sent (suc (suc left)) zero o.1.sent} (record {
        answered = λ r e p. command c.addr nothing_new;
        refused = λ x e y p k. command c.addr nothing_new;
        moved = λ x e b p k.
            let t : ClusterClient E = after_sending c cmd e s in
            let (d, u) = get_or_create_client b t in
            let same = sent-get_or_create_client b t in
            Sent-command_first c.addr (
              Sent-get_or_create_client b t (
                exec_loop-Sent left zero (suc i) (tried ++ b ∷ []) b d cmd u
                  (ground (arith, same))));
        moved_with_info = λ x b r f e g p k q. absurd (ground arith);
        info_failed = λ x y b d e g p k q. absurd (ground arith);
      })
  exec_loop-Sent (suc left) (suc n) i tried a c cmd s h =
      settle_rule nodes c cmd s {P = λ o. Sent cmd s.sent (suc (suc left)) (suc n) o.1.sent}
        (record {
          answered = λ r e p. command c.addr nothing_new;
          refused = λ x e y p k. command c.addr nothing_new;
          moved = λ x e b p k.
              let t : ClusterClient E = after_sending c cmd e s in
              let (d, u) = get_or_create_client b t in
              let same = sent-get_or_create_client b t in
              Sent-command_first c.addr (
                Sent-get_or_create_client b t (
                  exec_loop-Sent left (suc n) (suc i) (tried ++ b ∷ []) b d cmd u
                    (ground (arith, same))));
          moved_with_info = λ x b r f e g p k q.
              let t : ClusterClient E = after_sending c umctl_info e (after_sending c cmd f s) in
              let (d, u) = get_or_create_client b t in
              let same = sent-get_or_create_client b t in
              Sent-command_first c.addr (
                Sent-report_first c.addr (
                  Sent-get_or_create_client b t (
                    exec_loop-Sent left n (suc i) (tried ++ b ∷ []) b d cmd u
                      (ground (arith, same)))));
          info_failed = λ x y b d e g p k q. report c.addr (command c.addr nothing_new);
        })

  -- What a call sends is its command, at most five times, and, in debug mode only, requests for a
  -- report, at most four: whatever the nodes answer, and nothing else.
  pub exec-sent :
      (cmd : Command) (s : ClusterClient E)
      → Sent cmd s.sent 5 (if s.debug then 4 else 0) (exec nodes cmd s).1.sent
  unfolding exec
  exec-sent cmd s =
      let (c, u) = get_or_create_client s.startup_node s in
      let same = sent-get_or_create_client s.startup_node s in
      let n = if s.debug then 4 else 0 in
      let o = exec nodes cmd s in
      subst (λ l. Sent cmd l 5 n o.1.sent) same.0
        (exec_loop-Sent 4 n 0 (s.startup_node ∷ []) s.startup_node c cmd u (ground (arith, same)))

  -- The node that a call names did answer the command so.
  abbrev pub IsAnswered : Command → Outcome E → Type 0
  IsAnswered cmd ((ok r, a), s) = (d : E) × (nodes a cmd d ≡ inl (r, s.env))
  IsAnswered cmd ((err y, a), s) = Unit

  exec_loop-IsAnswered :
      (left i : ℕ) (tried : List Bytes) (a : Bytes) (c : RedisClient) (cmd : Command)
      (s : ClusterClient E)
      → IsPooled s
      → c.addr ≡ a
      → IsAnswered cmd (exec_loop nodes left i tried a c cmd s)
        × IsPooled (exec_loop nodes left i tried a c cmd s).1
  unfolding exec_loop
  exec_loop-IsAnswered zero i tried a c cmd s p q =
      settle_rule nodes c cmd s {P = λ o. IsAnswered cmd o × IsPooled o.1} (record {
        answered = λ r e h. ((s.env, ap (λ x. nodes x cmd s.env) (sym q) ∙ h), p);
        refused = λ x e y h k. (tt, p);
        moved = λ x e b h k. (tt, p);
        moved_with_info = λ x b r d e g h k m. (tt, p);
        info_failed = λ x y b d e g h k m. (tt, p);
      })
  exec_loop-IsAnswered (suc left) i tried a c cmd s p q =
      settle_rule nodes c cmd s {P = λ o. IsAnswered cmd o × IsPooled o.1} (record {
        answered = λ r e h. ((s.env, ap (λ x. nodes x cmd s.env) (sym q) ∙ h), p);
        refused = λ x e y h k. (tt, p);
        moved = λ x e b h k.
            let t : ClusterClient E = after_sending c cmd e s in
            let (d, u) = get_or_create_client b t in
            exec_loop-IsAnswered left (suc i) (tried ++ b ∷ []) b d cmd u
              (get_or_create_client-IsPooled b t p) (addr-get_or_create_client b t p);
        moved_with_info = λ x b r f e g h k m.
            let t : ClusterClient E = after_sending c umctl_info e (after_sending c cmd f s) in
            let (d, u) = get_or_create_client b t in
            exec_loop-IsAnswered left (suc i) (tried ++ b ∷ []) b d cmd u
              (get_or_create_client-IsPooled b t p) (addr-get_or_create_client b t p);
        info_failed = λ x y b d e g h k m. (tt, p);
      })

  -- A call keeps each connection in the pool under its own address, and when it returns a reply, the
  -- address that it returns is of a node that gave this very reply to the command, as its last act.
  pub exec-IsAnswered :
      (cmd : Command) (s : ClusterClient E)
      → IsPooled s
      → IsAnswered cmd (exec nodes cmd s) × IsPooled (exec nodes cmd s).1
  unfolding exec
  exec-IsAnswered cmd s p =
      let (c, u) = get_or_create_client s.startup_node s in
      exec_loop-IsAnswered 4 0 (s.startup_node ∷ []) s.startup_node c cmd u
        (get_or_create_client-IsPooled s.startup_node s p)
        (addr-get_or_create_client s.startup_node s p)
