-- ===== src/Checker/Client/Chain.antt =====
-- checker/pkg/client.go: `Exec` against the redirections that the nodes give.
use mathlib.Core.List.{append-nil, append_assoc}
use undermoon_operator.Prelude.{
  ℕ, suc, zero, ◌+◌, ◌-◌, ◌≤◌, List, [], ◌∷◌, ◌++◌, Bytes, false, ◌≡◌, refl, inl, inr, arith, ap,
  sym, ◌∙◌, length, length,
}
use undermoon_operator.Checker.Client.{
  Command, Reply, RedisError, CheckError, RedisClient, ClusterClient, Nodes, Next,
  get_or_create_client, settle, exec_loop, process, redirect, send_umctl_info, exec, err, ok,
  parse_moved, too_many_redirections, after_sending, record_sent,
}
use undermoon_operator.Checker.Client.Exec.{
  IsPooled, sent-get_or_create_client, addr-get_or_create_client, get_or_create_client-IsPooled,
}

module _ {E : Type 0} (nodes : Nodes E) where
  -- `Chain cmd hops a d b e`: sent to `a` in the outside `d`, the command is redirected to one node
  -- after the other, `hops` in order, the last of them `b`, in the outside `e`.
  pub data Chain (cmd : Command) : List Bytes → Bytes → E → Bytes → E → Type 0 where
    here : {a : Bytes} {d : E} → Chain cmd [] a d a d
    hop :
        {hops : List Bytes} {a b f : Bytes} {d e g : E} {x : RedisError}
        → nodes a cmd d ≡ inr (x, e)
        → parse_moved x ≡ ok b
        → Chain cmd hops b e f g
        → Chain cmd (b ∷ hops) a d f g

  -- The loop at the node `a`, in the outside `d`.
  record Round (a : Bytes) (d : E) (c : RedisClient) (s : ClusterClient E) : Type 0 where
    connected : c.addr ≡ a
    outside : s.env ≡ d
    quiet : s.debug ≡ false
    pooled : IsPooled s

  settle_moved :
      (i : ℕ) {a b : Bytes} {c : RedisClient} {cmd : Command} {s : ClusterClient E} {x : RedisError}
      {d e : E} (next : Next E)
      → Round a d c s
      → nodes a cmd d ≡ inr (x, e)
      → parse_moved x ≡ ok b
      → settle nodes i c a next (process nodes c cmd s) ≡ next b (after_sending c cmd e s)
  unfolding settle process redirect send_umctl_info record_sent
  settle_moved i next at h k = ground (arith, at.connected, at.outside, at.quiet, h, k)

  settle_refused :
      (i : ℕ) {a : Bytes} {c : RedisClient} {cmd : Command} {s : ClusterClient E} {x : RedisError}
      {d e : E} {y : CheckError} (next : Next E)
      → Round a d c s
      → nodes a cmd d ≡ inr (x, e)
      → parse_moved x ≡ err y
      → settle nodes i c a next (process nodes c cmd s) ≡ ((err y, []), after_sending c cmd e s)
  unfolding settle process redirect record_sent
  settle_refused i next at h k = ground (arith, at.connected, at.outside, at.quiet, h, k)

  settle_answered :
      (i : ℕ) {a : Bytes} {c : RedisClient} {cmd : Command} {s : ClusterClient E} {r : Reply}
      {d e : E} (next : Next E)
      → Round a d c s
      → nodes a cmd d ≡ inl (r, e)
      → settle nodes i c a next (process nodes c cmd s) ≡ ((ok r, a), after_sending c cmd e s)
  unfolding settle process record_sent
  settle_answered i next at h = ground (arith, at.connected, at.outside, at.quiet, h)

  get_or_create_client-Round :
      (b : Bytes) (e : E) (s : ClusterClient E)
      → s.env ≡ e
      → s.debug ≡ false
      → IsPooled s
      → Round b e (get_or_create_client b s).0 (get_or_create_client b s).1
  get_or_create_client-Round b e s h q p = record {
    connected = addr-get_or_create_client b s p;
    outside = (sent-get_or_create_client b s).2 ∙ h;
    quiet = (sent-get_or_create_client b s).1 ∙ q;
    pooled = get_or_create_client-IsPooled b s p;
  }

  -- The rounds that a chain takes, and those that are left.
  abbrev rounds : List Bytes → ℕ → ℕ
  rounds [] left = left
  rounds (b ∷ hops) left = suc (rounds hops left)

  length-rounds : (hops : List Bytes) (left : ℕ) → rounds hops left ≡ length hops + left
  length-rounds [] left = omega arith
  length-rounds (b ∷ hops) left = omega (arith, length-rounds hops left)

  exec_loop-Chain :
      (cmd : Command) (left i : ℕ) (tried : List Bytes) {hops : List Bytes} {a b : Bytes} {d e : E}
      {c : RedisClient} {s : ClusterClient E}
      → Chain cmd hops a d b e
      → Round a d c s
      → (j : ℕ) × (c2 : RedisClient) × (s2 : ClusterClient E) × Round b e c2 s2
        × (exec_loop nodes (rounds hops left) i tried a c cmd s
            ≡ exec_loop nodes left j (tried ++ hops) b c2 cmd s2)
  unfolding exec_loop
  exec_loop-Chain cmd left i tried {a = a} {c = c} {s = s} here at =
      (i, c, s, at, ap (λ l. exec_loop nodes left i l a c cmd s) (sym (append-nil tried)))
  exec_loop-Chain cmd left i tried {hops = b ∷ hops} {a = a} {b = z} {c = c} {s = s}
        (hop {e = e} h k chain) at =
      let t : ClusterClient E = after_sending c cmd e s in
      let next : Next E = λ f v.
        let (c3, w) = get_or_create_client f v in
        exec_loop nodes (rounds hops left) (suc i) (tried ++ f ∷ []) f c3 cmd w in
      let at2 = get_or_create_client-Round b e t refl at.quiet at.pooled in
      let (j, c3, v, at3, q) = exec_loop-Chain cmd left (suc i) (tried ++ b ∷ []) chain at2 in
      (
        j,
        c3,
        v,
        at3,
        settle_moved i next at h k
            ∙ q
            ∙ ap (λ l. exec_loop nodes left j l z c3 cmd v) (append_assoc tried (b ∷ []) hops),
      )

  exec-Chain :
      (left : ℕ) {hops : List Bytes} {b : Bytes} {e : E} {cmd : Command} (s : ClusterClient E)
      → Chain cmd hops s.startup_node s.env b e
      → IsPooled s
      → s.debug ≡ false
      → length hops + left ≡ 4
      → (j : ℕ) × (c2 : RedisClient) × (s2 : ClusterClient E) × Round b e c2 s2
        × (exec nodes cmd s ≡ exec_loop nodes left j (s.startup_node ∷ hops) b c2 cmd s2)
  unfolding exec
  exec-Chain left {hops = hops} {cmd = cmd} s chain p g h =
      let (c, u) = get_or_create_client s.startup_node s in
      let (j, c2, s2, at, q) =
        exec_loop-Chain cmd left 0 (s.startup_node ∷ []) chain
          (get_or_create_client-Round s.startup_node s.env s refl g p) in
      (
        j,
        c2,
        s2,
        at,
        ap (λ n. exec_loop nodes n 0 (s.startup_node ∷ []) s.startup_node c cmd u)
              (sym h ∙ sym (length-rounds hops left))
            ∙ q,
      )

  -- What the last node answers ends the loop, whichever round it is.
  exec_loop_answered :
      (left i : ℕ) (tried : List Bytes) {a : Bytes} {c : RedisClient} {cmd : Command}
      {s : ClusterClient E} {r : Reply} {d e : E}
      → Round a d c s
      → nodes a cmd d ≡ inl (r, e)
      → exec_loop nodes left i tried a c cmd s ≡ ((ok r, a), after_sending c cmd e s)
  unfolding exec_loop
  exec_loop_answered zero i tried at h = settle_answered i _ at h
  exec_loop_answered (suc left) i tried at h = settle_answered i _ at h

  exec_loop_refused :
      (left i : ℕ) (tried : List Bytes) {a : Bytes} {c : RedisClient} {cmd : Command}
      {s : ClusterClient E} {x : RedisError} {y : CheckError} {d e : E}
      → Round a d c s
      → nodes a cmd d ≡ inr (x, e)
      → parse_moved x ≡ err y
      → exec_loop nodes left i tried a c cmd s ≡ ((err y, []), after_sending c cmd e s)
  unfolding exec_loop
  exec_loop_refused zero i tried at h k = settle_refused i _ at h k
  exec_loop_refused (suc left) i tried at h k = settle_refused i _ at h k

  -- A client that is not in debug mode, whose pool has each connection under its address, follows up
  -- to four redirections: where the last node answers, the call returns the answer and this node.
  pub exec-Chain-answered :
      {hops : List Bytes} {b : Bytes} {e f : E} {r : Reply} {cmd : Command} (s : ClusterClient E)
      → Chain cmd hops s.startup_node s.env b e
      → nodes b cmd e ≡ inl (r, f)
      → IsPooled s
      → s.debug ≡ false
      → length hops ≤ 4
      → ((exec nodes cmd s).0 ≡ (ok r, b)) × ((exec nodes cmd s).1.env ≡ f)
  exec-Chain-answered {hops = hops} s chain h p g k =
      let (j, c2, s2, at, q) = exec-Chain (4 - length hops) s chain p g (omega arith) in
      let z = q ∙ exec_loop_answered (4 - length hops) j (s.startup_node ∷ hops) at h in
      (ap (λ o. o.0) z, ap (λ o. o.1.env) z)

  -- A client that is not in debug mode, whose pool has each connection under its address, follows up
  -- to four redirections: where the last node refuses the command with an error that `parseMoved`
  -- takes for no redirection, the call returns what `parseMoved` makes of it, with the empty address
  -- in place of the node's, and leaves the outside as this node left it.
  pub exec-Chain-refused :
      {hops : List Bytes} {b : Bytes} {e f : E} {x : RedisError} {y : CheckError} {cmd : Command}
      (s : ClusterClient E)
      → Chain cmd hops s.startup_node s.env b e
      → nodes b cmd e ≡ inr (x, f)
      → parse_moved x ≡ err y
      → IsPooled s
      → s.debug ≡ false
      → length hops ≤ 4
      → ((exec nodes cmd s).0 ≡ (err y, [])) × ((exec nodes cmd s).1.env ≡ f)
  exec-Chain-refused {hops = hops} s chain h m p g k =
      let (j, c2, s2, at, q) = exec-Chain (4 - length hops) s chain p g (omega arith) in
      let z = q ∙ exec_loop_refused (4 - length hops) j (s.startup_node ∷ hops) at h m in
      (ap (λ o. o.0) z, ap (λ o. o.1.env) z)

  -- A client that is not in debug mode, whose pool has each connection under its address, does not
  -- follow a fifth redirection: the call fails with the five addresses tried, in order, returns the
  -- address that it did not try, and leaves the outside as the fifth node left it.
  pub exec-Chain-exhausted :
      {hops : List Bytes} {a b : Bytes} {e f : E} {x : RedisError} {cmd : Command}
      (s : ClusterClient E)
      → Chain cmd hops s.startup_node s.env a e
      → nodes a cmd e ≡ inr (x, f)
      → parse_moved x ≡ ok b
      → IsPooled s
      → s.debug ≡ false
      → length hops ≡ 4
      → ((exec nodes cmd s).0 ≡ (err (too_many_redirections (s.startup_node ∷ hops)), b))
        × ((exec nodes cmd s).1.env ≡ f)
  unfolding exec_loop
  exec-Chain-exhausted {hops = hops} s chain h m p g k =
      let (j, c2, s2, at, q) = exec-Chain 0 s chain p g (omega arith) in
      let z = q ∙ settle_moved j _ at h m in (ap (λ o. o.0) z, ap (λ o. o.1.env) z)
