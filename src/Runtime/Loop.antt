-- ===== src/Runtime/Loop.antt =====
-- runtime/coordinator.go: the event loop `run`, one event at a time, and `handleEngineCancel`. The
-- events, their order and the times at which they are handled are the environment's.
use batch_weaver.Base.{
  ℕ, Bool, true, false, ◌&&◌, List, [], ◌∷◌, ◌++◌, Option, none, some, if◌then◌else◌,
}
use batch_weaver.Runtime.Policy.{Config, AdaptiveSettings, apply_adaptive_settings}
use batch_weaver.Runtime.State.{
  Item, Waiter, Partition, Inflight, SubmitReq, CancelReq, CompleteReq, ControlReq, Effect,
  Coordinator, emit, drained, find_partition, active_items, engine_closed, canceled,
}
use batch_weaver.Runtime.Submit.{handle_submit}
use batch_weaver.Runtime.Cancel.{handle_cancel}
use batch_weaver.Runtime.Dispatch.{error_result}
use batch_weaver.Runtime.Schedule.{schedule}
use batch_weaver.Runtime.Complete.{handle_complete, deliver_all}
use batch_weaver.Runtime.Barriers.{try_complete_barriers, fail_barriers, handle_control}

pub data Event (K V E : Type 0) : Type 0 where
  submitted : SubmitReq K → Event K V E
  cancellation : CancelReq → Event K V E
  completed : CompleteReq V E → Event K V E
  controlled : ControlReq → Event K V E
  timer_fired engine_done : Event K V E

-- The waiters that `handleEngineCancel` has answered are active no more.
abbrev pub retired_waiters : List Waiter → List Waiter
retired_waiters [] = []
retired_waiters (w ∷ ws) = record w { active = false } ∷ retired_waiters ws

module _ {K : Type 0} where
  abbrev pub retired_items : List (Item K) → List (Item K)
  retired_items [] = []
  retired_items (it ∷ its) = record it { waiters = retired_waiters it.waiters } ∷ retired_items its

  abbrev pub retired_partitions : List (Partition K) → List (Partition K)
  retired_partitions [] = []
  retired_partitions (p ∷ ps) =
      record p { pending = retired_items p.pending } ∷ retired_partitions ps

  -- A batch is reached through its partition.
  unfoldable pub retired_batches : List (Partition K) → List (Inflight K) → List (Inflight K)
  retired_batches ps [] = []
  retired_batches ps (b ∷ bs) = elim (find_partition b.partition ps) [
    | none ↦ b ∷ retired_batches ps bs
    | some _ ↦ record b { items = retired_items b.items } ∷ retired_batches ps bs
  ]

module _ {K V E : Type 0} where
  -- The coordinator that `Bind` starts.
  unfoldable pub new_coordinator : Config K → Coordinator K V E
  new_coordinator cfg = record {
    config = cfg;
    partitions = [];
    inflight = [];
    blocked = [];
    timer = none;
    active_provider = 0;
    batch_seq = 0;
    submit_seq = 0;
    request_seq = 0;
    closing = false;
    barriers = [];
    dyn = none;
    log = [];
  }

  -- The walk over the active items of every partition.
  unfoldable pub closed_items : List (Partition K) → List (Inflight K) → List (Effect K V E)
  closed_items [] bs = []
  closed_items (p ∷ ps) bs =
      deliver_all (error_result engine_closed) (active_items p bs) ++ closed_items ps bs

  unfoldable pub cancel_batches : List (Inflight K) → List (Effect K V E)
  cancel_batches [] = []
  cancel_batches (b ∷ bs) = canceled b.id ∷ cancel_batches bs

  -- `handleEngineCancel`
  unfoldable pub handle_engine_cancel : Coordinator K V E → Coordinator K V E
  unfolding emit
  handle_engine_cancel c = fail_barriers (some engine_closed) (
      emit (closed_items c.partitions c.inflight ++ cancel_batches c.inflight) (record c {
        closing = true;
        partitions = retired_partitions c.partitions;
        inflight = retired_batches c.partitions c.inflight;
      }))

  -- The `select` of `run`; a timer that fired is spent before the schedule that it asks for.
  unfoldable pub handle : ℕ → Event K V E → Coordinator K V E → Coordinator K V E
  handle now (submitted req) c = handle_submit now req c
  handle now (cancellation cr) c = handle_cancel cr c
  handle now (completed done) c = handle_complete now done c
  handle now (controlled ctrl) c = handle_control now ctrl c
  handle now timer_fired c = schedule false now (record c { timer = none })
  handle now engine_done c = handle_engine_cancel c

  -- The rest of a round of `run`: the coordinator, and whether the loop returns.
  unfoldable pub finish_round : ℕ → (ℕ → Bool) → Coordinator K V E → Coordinator K V E × Bool
  finish_round now expired c =
      let d = try_complete_barriers expired (schedule false now c) in
      if d.closing && drained d then (fail_barriers none d, true) else (d, false)

  abbrev pub is_engine_done : Event K V E → Bool
  is_engine_done engine_done = true
  is_engine_done _ = false

  -- One round of `run`.
  unfoldable pub round : ℕ → (ℕ → Bool) → Event K V E → Coordinator K V E → Coordinator K V E × Bool
  round now expired e c =
      let d = handle now e c in
      if is_engine_done e && drained d then (d, true) else finish_round now expired d

  -- What `ApplyAdaptiveSettings` and `ClearAdaptiveSettings` store.
  unfoldable pub tune : Option AdaptiveSettings → Coordinator K V E → Coordinator K V E
  unfolding apply_adaptive_settings
  tune none c = record c { dyn = none }
  tune (some s) c = record c { dyn = some (apply_adaptive_settings c.config s) }
