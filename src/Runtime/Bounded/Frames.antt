-- ===== src/Runtime/Bounded/Frames.antt =====
-- The frames of the handlers that settle a batch, complete barriers or end the engine.
use batch_weaver.Base.{
  ℕ, refl, Bool, Option, arith, Option-cases, inl, inr, ◌-◌, length, Bool-cases, ltb,
}
use batch_weaver.Message.Response.{BatchResponse, validate_against}
use batch_weaver.Runtime.State.{
  Partition, Inflight, Completion, CallError, Coordinator, find_partition, panicked, failed,
  answered, contract_response, provider_panic, external,
}
use batch_weaver.Runtime.Complete.{leave_partition, fail_batch, distribute, conclude, ids_of}
use batch_weaver.Runtime.Dispatch.{count_pruned}
use batch_weaver.Runtime.Barriers.{try_complete_barriers, fail_barriers}
use batch_weaver.Runtime.Loop.{handle_engine_cancel}
use batch_weaver.Runtime.Shapes.{shapes-retired_batches}
use batch_weaver.Runtime.Schedule.{compute_next_timer, prune_partition}
use batch_weaver.Runtime.Frame.{Frame, Frame-refl, Frame-trans, emit-Frame, write_back-Frame}

module _ {K V E : Type 0} where
  leave_partition-Frame : (b : Inflight K) (c : Coordinator K V E) → Frame c (leave_partition b c)
  unfolding leave_partition
  leave_partition-Frame b c = elim (Option-cases (find_partition b.partition c.partitions)) [
    | inl e ↦ ground (arith, e)
    | inr (p, e) ↦
        ground (arith, e, write_back-Frame (record p { live = p.live - length b.items }) c)
  ]

  fail_batch-Frame :
      (b : Inflight K) (e : CallError E) (c : Coordinator K V E) → Frame c (fail_batch b e c)
  unfolding fail_batch
  fail_batch-Frame b e c = Frame-trans (emit-Frame _ c) (leave_partition-Frame b _)

  distribute-Frame :
      (b : Inflight K) (r : BatchResponse V E) (c : Coordinator K V E) → Frame c (distribute b r c)
  unfolding distribute
  distribute-Frame b r c = elim (Option-cases (validate_against r (ids_of b.items))) [
    | inl e ↦ rw (e, distribute) (Frame-trans (emit-Frame _ c) (leave_partition-Frame b _))
    | inr (x, e) ↦
        rw (e, distribute)
          (Frame-trans (fail_batch-Frame b (contract_response x) c) (emit-Frame _ _))
  ]

  pub conclude-Frame :
      (b : Inflight K) (d : Completion V E) (c : Coordinator K V E) → Frame c (conclude b d c)
  unfolding conclude
  conclude-Frame b (panicked v) c =
      Frame-trans (fail_batch-Frame b (provider_panic v) c) (emit-Frame _ _)
  conclude-Frame b (failed e) c = Frame-trans (fail_batch-Frame b (external e) c) (emit-Frame _ _)
  conclude-Frame b (answered r) c = distribute-Frame b r c

  pub try_complete_barriers-Frame :
      (expired : ℕ → Bool) (c : Coordinator K V E) → Frame c (try_complete_barriers expired c)
  unfolding try_complete_barriers
  try_complete_barriers-Frame expired c = record {
    config = refl;
    dyn = refl;
    calls = refl;
    batches = refl;
  }

  pub fail_barriers-Frame :
      (e : Option (CallError E)) (c : Coordinator K V E) → Frame c (fail_barriers e c)
  unfolding fail_barriers
  fail_barriers-Frame e c = record { config = refl; dyn = refl; calls = refl; batches = refl }

  pub handle_engine_cancel-Frame : (c : Coordinator K V E) → Frame c (handle_engine_cancel c)
  unfolding handle_engine_cancel fail_barriers
  handle_engine_cancel-Frame c = record {
    config = refl;
    dyn = refl;
    calls = refl;
    batches = shapes-retired_batches c.partitions c.inflight;
  }

  pub compute_next_timer-Frame :
      (now : ℕ) (c : Coordinator K V E) → Frame c (compute_next_timer now c)
  unfolding compute_next_timer
  compute_next_timer-Frame now c = record {
    config = refl;
    dyn = refl;
    calls = refl;
    batches = refl;
  }

  pub prune_partition-Frame :
      (p : Partition K) (c : Coordinator K V E) → Frame c (prune_partition p c).1
  unfolding prune_partition
  prune_partition-Frame p c = elim (Bool-cases (ltb 0 (count_pruned p.pending))) [
    | inl e ↦ rw e (Frame-trans (emit-Frame _ c) (write_back-Frame _ _))
    | inr e ↦ rw e (Frame-refl c)
  ]
