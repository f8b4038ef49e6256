-- ===== src/Runtime/Barriers.antt =====
-- runtime/coordinator_dispatch.go: flush, drain and close barriers. `expired` tells the context
-- error of a barrier, by its identifier; the error itself is not told apart.
use batch_weaver.Base.{
  ℕ, Bool, true, false, not, List, [], ◌∷◌, ◌++◌, Option, none, some, leb, any, if◌then◌else◌,
}
use batch_weaver.Runtime.State.{
  CallError, Partition, Inflight, ControlKind, flush, close, ControlReq, Barrier, Effect,
  Coordinator, emit, released, flush_timeout, drain_timeout,
}
use batch_weaver.Runtime.Schedule.{schedule}

module _ {K : Type 0} where
  -- `anyPending` and `anyInflight`
  unfoldable pub any_pending : ℕ → List (Partition K) → Bool
  any_pending seq = any (λ p. any (λ it. leb it.seq seq) p.pending)

  unfoldable pub any_inflight : ℕ → List (Inflight K) → Bool
  any_inflight seq = any (λ b. leb b.min_seq seq)

abbrev pub is_close : ControlKind → Bool
is_close close = true
is_close _ = false

abbrev pub is_flush : ControlKind → Bool
is_flush flush = true
is_flush _ = false

unfoldable pub barrier_timeout : {E : Type 0} → ControlKind → CallError E
barrier_timeout flush = flush_timeout
barrier_timeout _ = drain_timeout

module _ {K V E : Type 0} where
  -- `barrierSatisfied`
  unfoldable pub barrier_satisfied : Barrier → Coordinator K V E → Bool
  unfolding any_pending any_inflight
  barrier_satisfied b c =
      if any_pending b.seq c.partitions
      then false
      else if b.dispatch_only
      then true
      else not (any_inflight b.seq c.inflight)

  -- The walk of `tryCompleteBarriers`: what is kept, and the replies.
  unfoldable pub complete_barriers :
      (ℕ → Bool) → List Barrier → Coordinator K V E → List Barrier × List (Effect K V E)
  complete_barriers expired [] c = ([], [])
  complete_barriers expired (b ∷ bs) c =
      let (kept, sent) = complete_barriers expired bs c in
      if expired b.id
      then (kept, released b.id (some (barrier_timeout b.kind)) ∷ sent)
      else if barrier_satisfied b c
      then (kept, released b.id none ∷ sent)
      else (b ∷ kept, sent)

  unfoldable pub try_complete_barriers : (ℕ → Bool) → Coordinator K V E → Coordinator K V E
  unfolding emit
  try_complete_barriers expired c =
      let (kept, sent) = complete_barriers expired c.barriers c in
      emit sent (record c { barriers = kept })

  abbrev pub release_all : Option (CallError E) → List Barrier → List (Effect K V E)
  release_all e [] = []
  release_all e (b ∷ bs) = released b.id e ∷ release_all e bs

  -- `failBarriers`
  unfoldable pub fail_barriers : Option (CallError E) → Coordinator K V E → Coordinator K V E
  unfolding emit
  fail_barriers e c = emit (release_all e c.barriers) (record c { barriers = [] })

  unfoldable pub handle_control : ℕ → ControlReq → Coordinator K V E → Coordinator K V E
  handle_control now ctrl c =
      let d = schedule true now (if is_close ctrl.kind then record c { closing = true } else c) in
      record d {
        barriers =
            d.barriers
            ++ record {
              id = ctrl.id;
              kind = ctrl.kind;
              seq = d.submit_seq;
              dispatch_only = is_flush ctrl.kind;
            }
              ∷ [];
      }
