-- ===== src/Checker/Client/Round.antt =====
-- checker/pkg/client.go: the five ways in which a round of `Exec` ends.
use undermoon_operator.Prelude.{
  ℕ, Bytes, Bool, true, false, ◌≡◌, refl, ◌⊎◌, inl, inr, if◌then◌else◌, ◌==◌, not, ◌&&◌, [],
}
use undermoon_operator.Checker.Client.{
  Command, Reply, RedisError, CheckError, Result, RedisClient, ClusterClient, Nodes, Outcome, Next,
  process, after_info, send_umctl_info, redirect, settle, umctl_info, err, ok, parse_moved,
  after_sending, record_sent, redis,
}

module _ {E : Type 0} (nodes : Nodes E) (c : RedisClient) (cmd : Command)
    (s : ClusterClient E) where
  -- The ways in which a round ends, for what is known of its result.
  pub record Round {ℓ} (i : ℕ) (a : Bytes) (next : Next E) (P : Outcome E → Type ℓ) : Type ℓ where
    pub answered :
        (r : Reply) (e : E)
        → nodes c.addr cmd s.env ≡ inl (r, e)
        → P ((ok r, a), after_sending c cmd e s)
    pub refused :
        (x : RedisError) (e : E) (y : CheckError)
        → nodes c.addr cmd s.env ≡ inr (x, e)
        → parse_moved x ≡ err y
        → P ((err y, []), after_sending c cmd e s)
    pub moved :
        (x : RedisError) (e : E) (b : Bytes)
        → nodes c.addr cmd s.env ≡ inr (x, e)
        → parse_moved x ≡ ok b
        → P (next b (after_sending c cmd e s))
    pub moved_with_info :
        (x : RedisError) (b : Bytes) (r : Reply) (d e : E)
        → (s.debug && not (i == 0)) ≡ true
        → nodes c.addr cmd s.env ≡ inr (x, d)
        → parse_moved x ≡ ok b
        → nodes c.addr umctl_info d ≡ inl (r, e)
        → P (next b (after_sending c umctl_info e (after_sending c cmd d s)))
    pub info_failed :
        (x y : RedisError) (b : Bytes) (d e : E)
        → (s.debug && not (i == 0)) ≡ true
        → nodes c.addr cmd s.env ≡ inr (x, d)
        → parse_moved x ≡ ok b
        → nodes c.addr umctl_info d ≡ inr (y, e)
        → P ((err (redis y), b), after_sending c umctl_info e (after_sending c cmd d s))

  module _ {ℓ} {i : ℕ} {a : Bytes} {next : Next E} {P : Outcome E → Type ℓ}
      (round : Round i a next P) where
    after_info-lem :
        (x : RedisError) (d : E) (b : Bytes)
        → (s.debug && not (i == 0)) ≡ true
        → nodes c.addr cmd s.env ≡ inr (x, d)
        → parse_moved x ≡ ok b
        → (o : (Reply × E) ⊎ (RedisError × E)) → nodes c.addr umctl_info d ≡ o
        → P (after_info nodes b next (record_sent nodes c umctl_info (after_sending c cmd d s) o))
    unfolding after_info record_sent
    after_info-lem x d b g h p (inl (r, e)) k = round.moved_with_info x b r d e g h p k
    after_info-lem x d b g h p (inr (y, e)) k = round.info_failed x y b d e g h p k

    send_umctl_info-lem :
        (x : RedisError) (d : E) (b : Bytes)
        → nodes c.addr cmd s.env ≡ inr (x, d)
        → parse_moved x ≡ ok b
        → (g : Bool) → (g ≡ true → (s.debug && not (i == 0)) ≡ true)
        → P (
            if g
            then after_info nodes b next (process nodes c umctl_info (after_sending c cmd d s))
            else next b (after_sending c cmd d s))
    unfolding process
    send_umctl_info-lem x d b h p true q =
        after_info-lem x d b (q refl) h p (nodes c.addr umctl_info d) refl
    send_umctl_info-lem x d b h p false q = round.moved x d b h p

    redirect-lem :
        (x : RedisError) (d : E)
        → nodes c.addr cmd s.env ≡ inr (x, d)
        → (o : Result Bytes) → parse_moved x ≡ o
        → P (redirect nodes i c next (after_sending c cmd d s) o)
    unfolding redirect send_umctl_info
    redirect-lem x d h (err y) p = round.refused x d y h p
    redirect-lem x d h (ok b) p = send_umctl_info-lem x d b h p (s.debug && not (i == 0)) (λ q. q)

    settle-lem :
        (o : (Reply × E) ⊎ (RedisError × E))
        → nodes c.addr cmd s.env ≡ o
        → P (settle nodes i c a next (record_sent nodes c cmd s o))
    unfolding settle record_sent
    settle-lem (inl (r, e)) h = round.answered r e h
    settle-lem (inr (x, e)) h = redirect-lem x e h (parse_moved x) refl

    pub settle_rule : P (settle nodes i c a next (process nodes c cmd s))
    unfolding process
    settle_rule = settle-lem (nodes c.addr cmd s.env) refl
