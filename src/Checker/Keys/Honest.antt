-- ===== src/Checker/Keys/Honest.antt =====
-- checker/pkg/kv.go: no false alarm, for all checks and for the loop that runs them.
use mathlib.Core.Path.{subst}
use undermoon_operator.Prelude.{ℕ, zero, suc, ◌%◌, List, [], ◌∷◌, Bytes, get_or, ◌≢◌}
use undermoon_operator.Checker.Client.{exit, ok, err, inconsistent, Result}
use undermoon_operator.Checker.Client.Store.{Store}
use undermoon_operator.Checker.Keys.{Outside, KvChecker, Check, pure}
use undermoon_operator.Checker.Keys.Checks.{
  check_of, check_key_value, loop_check, check_set, check_mset, check_lua_mset, check_get,
  check_mget, check_lua_mget, check_del,
}
use undermoon_operator.Checker.Keys.Sound.{
  After, NoReport, IsFair, Holds, Sound, Sound-pure, Sound-raise, Sound-if, Sound-bind, Sound-then,
  Sound-ask_any, Sound-imp,
}
use undermoon_operator.Checker.Keys.Memory.{Ready}
use undermoon_operator.Checker.Keys.Reads.{Sound-check_get, Sound-check_mget, Sound-check_lua_mget}
use undermoon_operator.Checker.Keys.Writes.{
  Sound-check_set, Sound-check_mset, Sound-check_del, Sound-check_lua_mset,
}

module _ {E : Type 0} (store : E → Store) (luas : List Bytes) where
  -- A check from any state in which the checker remembers what the nodes hold.
  abbrev IsSound : Check E Unit → Type 0
  IsSound m = Sound (Ready store luas) m (λ x ck. Ready store luas ck)

  abbrev AllSound : List (Check E Unit) → Type 0
  AllSound [] = Unit
  AllSound (m ∷ ms) = IsSound m × AllSound ms

  now_IsSound :
      {m : Check E Unit}
      → ((s : Store) → Sound (Holds store luas s s) m (λ x ck. Ready store luas ck))
      → IsSound m
  now_IsSound h = record { at = λ ck (s, p). (h s).at ck p }

  After-Ready :
      (s : Store) (o : Result (Unit {0}) × KvChecker E)
      → After (λ x ck. Holds store luas s s ck) o
      → After (λ x ck. Ready store luas ck) o
  After-Ready s (ok x, ck) p = (s, p)
  After-Ready s (err y, ck) p = p

  reading_IsSound :
      {m : Check E Unit}
      → ((s : Store) → Sound (Holds store luas s s) m (λ x ck. Holds store luas s s ck))
      → IsSound m
  reading_IsSound {m = m} h = record { at = λ ck (s, p). After-Ready s (m ck) ((h s).at ck p) }

  get_or-IsSound :
      (ms : List (Check E Unit)) (n : ℕ) → AllSound ms → IsSound (get_or ms n (pure tt))
  get_or-IsSound [] n h = Sound-pure tt (λ ck p. p)
  get_or-IsSound (m ∷ ms) zero h = h.0
  get_or-IsSound (m ∷ ms) (suc n) h = get_or-IsSound ms n h.1

-- The result is no report of an inconsistency.
abbrev IsSilent : Result (Unit {0}) → Type 0
IsSilent (ok x) = Unit
IsSilent (err y) = NoReport y

After-IsSilent :
    {E : Type 0} (Q : KvChecker E → Type 0) (o : Result (Unit {0}) × KvChecker E)
    → After (λ x ck. Q ck) o
    → IsSilent o.0
After-IsSilent Q (ok x, ck) p = tt
After-IsSilent Q (err y, ck) p = p

module _ {E : Type 0} {out : Outside E} {store : E → Store} {luas : List Bytes}
    (fair : IsFair out store) where
  check_of-IsSound : (n : ℕ) → IsSound store luas (check_of out n)
  unfolding check_of
  check_of-IsSound n =
      get_or-IsSound store luas
        (check_set out
          ∷ check_mset out
          ∷ check_lua_mset out
          ∷ check_get out
          ∷ check_mget out
          ∷ check_lua_mget out
          ∷ check_del out
          ∷ [])
        n
        (
          now_IsSound store luas (λ s. Sound-check_set fair),
          (
            now_IsSound store luas (λ s. Sound-check_mset fair),
            (
              now_IsSound store luas (λ s. Sound-check_lua_mset fair),
              (
                reading_IsSound store luas (λ s. Sound-check_get fair),
                (
                  reading_IsSound store luas (λ s. Sound-check_mget fair),
                  (
                    reading_IsSound store luas (λ s. Sound-check_lua_mget fair),
                    (now_IsSound store luas (λ s. Sound-check_del fair), tt),
                  ),
                ),
              ),
            ),
          ),
        )

  check_key_value-IsSound : IsSound store luas (check_key_value out)
  unfolding check_key_value
  check_key_value-IsSound = now_IsSound store luas (λ s.
      Sound-bind (Sound-ask_any store luas out.rand fair.rand_keeps)
        λ n. Sound-imp (λ ck p. (s, p)) (check_of-IsSound (n % 7)))

  loop_check-IsSound : (rounds : ℕ) → IsSound store luas (loop_check out rounds)
  unfolding loop_check
  loop_check-IsSound zero = Sound-pure tt (λ ck p. p)
  loop_check-IsSound (suc rounds) = now_IsSound store luas (λ s.
      Sound-bind (Sound-ask_any store luas out.cancelled fair.cancelled_keeps) λ cancelled.
        Sound-imp (λ ck p. (s, p))
          (Sound-if cancelled (λ q. Sound-raise exit tt)
            (λ q. Sound-then check_key_value-IsSound (λ x. loop_check-IsSound rounds))))

  -- When the nodes are one store that nobody else writes, a check that starts with the checker's memory
  -- equal to the store, each key filed under its slot, ends so, or with an error that is no report.
  pub check_key_value-Ready :
      (ck : KvChecker E)
      → Ready store luas ck
      → After (λ x c. Ready store luas c) (check_key_value out ck)
  check_key_value-Ready ck p = check_key_value-IsSound.at ck p

  -- When the nodes are one store that nobody else writes, whatever redirections they give, the loop of
  -- checks never reports an inconsistency, however many rounds it runs, from a memory equal to the store.
  pub loop_check-no_report :
      (rounds : ℕ) (ck : KvChecker E) (k v w : Bytes)
      → Ready store luas ck
      → (loop_check out rounds ck).0 ≢ err (inconsistent k v w)
  loop_check-no_report rounds ck k v w p q = subst IsSilent q (
      After-IsSilent (Ready store luas) (loop_check out rounds ck)
        ((loop_check-IsSound rounds).at ck p))
