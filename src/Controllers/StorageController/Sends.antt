-- ===== src/Controllers/StorageController/Sends.antt =====
-- controllers/storage_controller.go: what the scaling steps send.
use undermoon_operator.Prelude.{
  ℕ, ◌+◌, ◌*◌, ◌≡◌, ◌≢◌, arith, Bytes, bytes_eq, eq_of_bytes_eq, false, ltb, ◌==◌, if◌then◌else◌,
  not,
}
use native.Mathlib.Decide.{ℕ_discrete}
use undermoon_operator.Controllers.Types.{Undermoon, StatefulSet}
use undermoon_operator.Controllers.Io.{
  Io, Outside, World, Result, err, Event, failure, updated_status, updated_stateful_set,
  ClusterInfo, retry_reconciliation, request, ask, handle, pure, raise, ◌>>=◌,
}
use undermoon_operator.Controllers.Io.Keeps.{
  Sends, Sends-request, Sends-bind, Sends-handle, Sends-if, Sends-raise, Sends-pure, Sends-ask,
  sends_rules,
}
use undermoon_operator.Controllers.StorageController.{
  is_empty, conflict_to_retry, shard_replicas, scale_state_scale_down_wait, scale_state_stable,
  scale_down_wait_time, update_storage_stateful_set, wait_timestamp, set_scale_state,
  finish_scale_down, wait_and_scale_down, scale_down_storage_stateful_set,
}

module _ {E : Type 0} (o : Outside E) (cr : Undermoon) (s : StatefulSet) (info : ClusterInfo) where
  -- As long as the number of nodes that hold slots is not four for each chunk, the step sends
  -- nothing, changes nothing and asks for a retry.
  pub scale_down_needs_slots :
      (w : World E)
      → info.node_number_with_slots ≢ cr.spec.chunk_number * 4
      → scale_down_storage_stateful_set o cr s info w ≡ (err retry_reconciliation, w)
  unfolding scale_down_storage_stateful_set ◌>>=◌
  scale_down_needs_slots w h = ground arith

  match_slots :
      info.node_number_with_slots ≡ cr.spec.chunk_number * 4
      → scale_down_storage_stateful_set o cr s info ≡ (
          if s.spec.replicas == shard_replicas cr then pure (cr, s) else wait_and_scale_down o cr s)
  unfolding scale_down_storage_stateful_set
  match_slots h = ground arith

module _ {E : Type 0} (o : Outside E) {P : Event → Type 0}
    (status : (c : Undermoon) → P (updated_status c)) where
  pub update_storage-Sends :
      (cr : Undermoon) (s : StatefulSet)
      → (is_empty s.resource_version ≡ false
          → P (
              updated_stateful_set
                (record s { spec = record s.spec { replicas = shard_replicas cr } })))
      → Sends P (update_storage_stateful_set o cr s)
  unfolding update_storage_stateful_set
  update_storage-Sends cr s allowed =
      let s' : StatefulSet = record s { spec = record s.spec { replicas = shard_replicas cr } } in
      Sends-if (is_empty s.resource_version) (raise failure)
        (handle (request (updated_stateful_set s') (o.update_stateful_set s')) pure
          (λ e. raise (conflict_to_retry e)))
        (λ _. Sends-raise {P = P} failure)
        (λ nonempty.
          Sends-handle (request (updated_stateful_set s') (o.update_stateful_set s')) pure
            (λ e. raise (conflict_to_retry e))
            (Sends-request {P = P} (updated_stateful_set s') (o.update_stateful_set s')
              (allowed nonempty))
            (λ a. Sends-pure {P = P} a) (λ e. Sends-raise {P = P} (conflict_to_retry e)))

  status-Sends :
      (c : Undermoon) (f : E → Result Undermoon × E) → Sends P (request (updated_status c) f)
  status-Sends c f = Sends-request {P = P} (updated_status c) f (status c)

  wait_timestamp-Sends : (state : Bytes) → Sends P (wait_timestamp o state)
  unfolding wait_timestamp
  wait_timestamp-Sends state = search sends_rules

  set_scale_state-Sends : (cr : Undermoon) (state : Bytes) → Sends P (set_scale_state o cr state)
  unfolding set_scale_state
  set_scale_state-Sends cr state = search (sends_rules, status-Sends, wait_timestamp-Sends)

  module _ (cr : Undermoon) (s : StatefulSet) (info : ClusterInfo)
      (allowed : info.node_number_with_slots ≡ cr.spec.chunk_number * 4
        → cr.status.scale_state ≡ scale_state_scale_down_wait
        → is_empty s.resource_version ≡ false
        → P (
            updated_stateful_set
              (record s { spec = record s.spec { replicas = shard_replicas cr } }))) where
    finish-Sends :
        info.node_number_with_slots ≡ cr.spec.chunk_number * 4
        → cr.status.scale_state ≡ scale_state_scale_down_wait
        → Sends P (finish_scale_down o cr s)
    unfolding finish_scale_down
    finish-Sends hs hw =
        Sends-bind (update_storage_stateful_set o cr s)
          (λ s'. set_scale_state o cr scale_state_stable >>= λ cr'. pure (cr', s'))
          (update_storage-Sends cr s (allowed hs hw))
          (λ s'.
            Sends-bind (set_scale_state o cr scale_state_stable) (λ cr'. pure (cr', s'))
              (set_scale_state-Sends cr scale_state_stable) (λ cr'. Sends-pure {P = P} (cr', s')))

    wait-Sends :
        info.node_number_with_slots ≡ cr.spec.chunk_number * 4
        → Sends P (wait_and_scale_down o cr s)
    unfolding wait_and_scale_down
    wait-Sends hs =
        let announce : Io E (Undermoon × StatefulSet) =
          (set_scale_state o cr scale_state_scale_down_wait >>= λ _. raise retry_reconciliation) in
        let go : ℕ → Io E (Undermoon × StatefulSet) = λ now.
          if ltb now (cr.status.scale_down_wait_timestamp + scale_down_wait_time)
          then raise retry_reconciliation
          else finish_scale_down o cr s in
        Sends-if (not (bytes_eq cr.status.scale_state scale_state_scale_down_wait)) announce
          (ask o.now >>= go)
          (λ _.
            Sends-bind (set_scale_state o cr scale_state_scale_down_wait)
              (λ _. raise retry_reconciliation)
              (set_scale_state-Sends cr scale_state_scale_down_wait)
              (λ _. Sends-raise {P = P} retry_reconciliation))
          (λ waiting. Sends-bind (ask o.now) go (Sends-ask {P = P} o.now) (λ now.
            Sends-if (ltb now (cr.status.scale_down_wait_timestamp + scale_down_wait_time))
              (raise retry_reconciliation) (finish_scale_down o cr s)
              (λ _. Sends-raise {P = P} retry_reconciliation)
              (λ _. finish-Sends hs (
                eq_of_bytes_eq cr.status.scale_state scale_state_scale_down_wait
                  (ground (arith, waiting))))))

    -- The one update of a StatefulSet is sent when the slots are where they should be, the wait
    -- has been announced, and the object has a resource version.
    pub scale_down-Sends : Sends P (scale_down_storage_stateful_set o cr s info)
    scale_down-Sends = elim (ℕ_discrete info.node_number_with_slots (cr.spec.chunk_number * 4)) [
      | yes e ↦ rw (match_slots o cr s info e) (
          Sends-if (s.spec.replicas == shard_replicas cr) (pure (cr, s))
            (wait_and_scale_down o cr s) (λ _. Sends-pure {P = P} (cr, s)) (λ _. wait-Sends e))
      | no ne ↦ record { at = λ w h. rw (scale_down_needs_slots o cr s info w ne) h }
    ]
