-- ===== src/Controllers/StorageController/ScaleDown.antt =====
-- controllers/storage_controller.go: when the storage StatefulSet is scaled down.
use mathlib.Core.Path.{subst}
use undermoon_operator.Prelude.{
  List, ◌∷◌, ◌++◌, ap, sym, ◌∙◌, ◌⊎◌, inl, inr, ℕ, ◌+◌, ◌*◌, ◌<◌, ◌≤◌, ◌≡◌, ◌≢◌, refl, arith,
  bytes_eq_self, bytes_eq, false, [],
}
use undermoon_operator.Controllers.Types.{Undermoon, StatefulSet}
use undermoon_operator.Controllers.Io.{
  handle, request, pure, raise, Outside, World, Result, ok, err, Error, updated_status, Event,
  updated_stateful_set, ClusterInfo, ◌>>=◌,
}
use undermoon_operator.Controllers.Io.Keeps.{AllEvents}
use undermoon_operator.Controllers.StorageController.Sends.{scale_down-Sends}
use undermoon_operator.Controllers.StorageController.{
  conflict_to_retry, update_storage_stateful_set, set_scale_state, wait_timestamp, is_empty,
  shard_replicas, scale_state_scale_down_wait, scale_down_wait_time, scale_state_stable,
  finish_scale_down, scale_down_storage_stateful_set,
}

module _ {E : Type 0} (o : Outside E) (cr : Undermoon) (storage : StatefulSet)
    (info : ClusterInfo) where
  -- If a scale-down is announced in the status and the clock, read without an error, is less than
  -- the wait time after the announcement, the step sends nothing.
  pub scale_down_waits :
      (w : World E) (now : ℕ)
      → (o.now w.env).0 ≡ ok now
      → now < cr.status.scale_down_wait_timestamp + scale_down_wait_time
      → cr.status.scale_state ≡ scale_state_scale_down_wait
      → (scale_down_storage_stateful_set o cr storage info w).1.log ≡ w.log
  unfolding scale_down_storage_stateful_set ◌>>=◌
  scale_down_waits w now h lt s = ground (arith, bytes_eq_self scale_state_scale_down_wait)

-- What an update of a StatefulSet must fulfil in this step.
abbrev pub IsPermitted : Undermoon → ClusterInfo → Event → Type 0
IsPermitted cr info (updated_stateful_set s) =
    (info.node_number_with_slots ≡ cr.spec.chunk_number * 4)
    × (cr.status.scale_state ≡ scale_state_scale_down_wait)
    × (s.spec.replicas ≡ shard_replicas cr)
    × (is_empty s.resource_version ≡ false)
IsPermitted cr info _ = Unit

module _ {E : Type 0} (o : Outside E) (cr : Undermoon) (storage : StatefulSet)
    (info : ClusterInfo) where
  -- Started with an empty log, and whatever the outside answers, the step updates a StatefulSet
  -- only if the brokers reported four nodes with slots for each chunk and the status announced the
  -- wait before the step; each update sets two replicas for each chunk, as an `int32`, and carries a
  -- resource version.
  pub scale_down-IsPermitted :
      (e : E)
      → AllEvents
          (IsPermitted cr info)
          (scale_down_storage_stateful_set o cr storage info (record { env = e; log = [] })).1.log
  scale_down-IsPermitted e =
      (scale_down-Sends o {P = IsPermitted cr info} (λ c. tt) cr storage info
          (λ hs hw nonempty. (hs, hw, refl, nonempty))).at
        (record { env = e; log = [] }) tt

  -- A step that succeeds with the replicas as specified leaves everything as it was, also an
  -- announcement in the status.
  scale_down_keeps_state :
      (w : World E) (cr1 : Undermoon) (s1 : StatefulSet)
      → storage.spec.replicas ≡ shard_replicas cr
      → (scale_down_storage_stateful_set o cr storage info w).0 ≡ ok (cr1, s1)
      → (cr1 ≡ cr) × ((scale_down_storage_stateful_set o cr storage info w).1.log ≡ w.log)
  unfolding scale_down_storage_stateful_set ◌>>=◌
  scale_down_keeps_state w cr1 s1 hr h = ground arith

  scale_down_goes_on :
      (w : World E) (now : ℕ)
      → info.node_number_with_slots ≡ cr.spec.chunk_number * 4
      → storage.spec.replicas ≢ shard_replicas cr
      → cr.status.scale_state ≡ scale_state_scale_down_wait
      → (o.now w.env).0 ≡ ok now
      → cr.status.scale_down_wait_timestamp + scale_down_wait_time ≤ now
      → scale_down_storage_stateful_set o cr storage info w
        ≡ finish_scale_down o cr storage (record w { env = (o.now w.env).1 })
  unfolding scale_down_storage_stateful_set ◌>>=◌
  scale_down_goes_on w now hs hr hw hn ht =
      ground (arith, bytes_eq_self scale_state_scale_down_wait)

-- The StatefulSet with the replicas that the custom resource asks for, and the update to it.
abbrev pub scaled : Undermoon → StatefulSet → StatefulSet
scaled cr s = record s { spec = record s.spec { replicas = shard_replicas cr } }

abbrev pub scaled_to : Undermoon → StatefulSet → Event
scaled_to cr s = updated_stateful_set (scaled cr s)

-- `event` is the first of the requests that a step adds to a log, the newest being in front.
abbrev pub StartsWith : Event → List Event → List Event → Type 0
StartsWith event old log = (newer : List Event) × (log ≡ newer ++ event ∷ old)

module _ {E : Type 0} (o : Outside E) where
  Result-cases : {A : Type 0} (r : Result A) → ((a : A) × r ≡ ok a) ⊎ ((e : Error) × r ≡ err e)
  Result-cases (ok a) = inl (a, refl)
  Result-cases (err e) = inr (e, refl)

  -- Past the check of the resource version.
  update_sends :
      (cr : Undermoon) (s : StatefulSet) (w : World E)
      → is_empty s.resource_version ≡ false
      → update_storage_stateful_set o cr s w
        ≡ handle
            (request (scaled_to cr s) (o.update_stateful_set (scaled cr s)))
            pure
            (λ e. raise (conflict_to_retry e))
            w
  unfolding update_storage_stateful_set
  update_sends cr s w h = rw h refl

  finish_scale_down-StartsWith :
      (cr : Undermoon) (s : StatefulSet) (w : World E)
      → is_empty s.resource_version ≡ false
      → StartsWith (scaled_to cr s) w.log (finish_scale_down o cr s w).1.log
  unfolding finish_scale_down set_scale_state wait_timestamp bytes_eq ◌>>=◌
  finish_scale_down-StartsWith cr s w h =
      let stable : Undermoon = record cr {
        status = record cr.status {
          scale_state = scale_state_stable;
          scale_down_wait_timestamp = 0;
        };
      } in
      elim (Result-cases (o.update_stateful_set (scaled cr s) w.env).0) [
        | inl (a, q) ↦ (updated_status stable ∷ [], ground (arith, update_sends cr s w h))
        | inr (e, q) ↦ ([], ground (arith, update_sends cr s w h))
      ]

  -- A scale-down that was announced in the status and then cancelled: a step that succeeds with the
  -- StatefulSet's replicas as specified sends nothing and leaves the custom resource, so the
  -- announcement, as it was. Any later step that starts from the status that this step has left,
  -- whose custom resource asks for other replicas than its StatefulSet has, in which the brokers
  -- report four nodes with slots for each chunk, the StatefulSet carries a resource version and the
  -- clock, read without an error, is at least the wait time after the old announcement, sends the
  -- update of the StatefulSet as its first request, without an announcement of its own before it.
  pub scale_down_unannounced :
      (cr cr1 cr2 : Undermoon) (s s1 s2 : StatefulSet) (info info2 : ClusterInfo) (w w2 : World E)
      (now : ℕ)
      → cr.status.scale_state ≡ scale_state_scale_down_wait
      → s.spec.replicas ≡ shard_replicas cr
      → (scale_down_storage_stateful_set o cr s info w).0 ≡ ok (cr1, s1)
      → cr2.status ≡ cr1.status
      → s2.spec.replicas ≢ shard_replicas cr2
      → info2.node_number_with_slots ≡ cr2.spec.chunk_number * 4
      → is_empty s2.resource_version ≡ false
      → (o.now w2.env).0 ≡ ok now
      → cr.status.scale_down_wait_timestamp + scale_down_wait_time ≤ now
      → (cr1 ≡ cr)
        × ((scale_down_storage_stateful_set o cr s info w).1.log ≡ w.log)
        × StartsWith
            (scaled_to cr2 s2)
            w2.log
            (scale_down_storage_stateful_set o cr2 s2 info2 w2).1.log
  scale_down_unannounced cr cr1 cr2 s s1 s2 info info2 w w2 now hw hr first same hr2 hs2 hv hn ht =
      let (kept, quiet) = scale_down_keeps_state o cr s info w cr1 s1 hr first in
      let status = same ∙ ap (λ c. c.status) kept in
      let second =
        scale_down_goes_on o cr2 s2 info2 w2 now hs2 hr2 (ap (λ t. t.scale_state) status ∙ hw) hn
          (subst (λ t. t.scale_down_wait_timestamp + scale_down_wait_time ≤ now) (sym status) ht) in
      (
        kept,
        quiet,
        subst (λ p. StartsWith (scaled_to cr2 s2) w2.log p.1.log) (sym second)
            (finish_scale_down-StartsWith cr2 s2 (record w2 { env = (o.now w2.env).1 }) hv),
      )
