-- ===== src/Runtime/Bounded/Rounds.antt =====
-- The limits hold after every round of the event loop, whatever the events.
use batch_weaver.Base.{
  ℕ, suc, ◌-◌, ◌≡◌, refl, Bool, true, false, List, [], ◌∷◌, none, some, arith, length, All,
  Option-cases, Bool-cases, inl, inr, ◌==◌, ◌&&◌, if◌then◌else◌,
}
use batch_weaver.Runtime.State.{
  Inflight, Coordinator, CompleteReq, ControlReq, emit, drained, stored, canceled,
  active_provider_calls,
}
use batch_weaver.Runtime.Complete.{find_batch, delete_batch, handle_complete}
use batch_weaver.Runtime.Barriers.{handle_control, is_close, try_complete_barriers}
use batch_weaver.Runtime.Schedule.{schedule}
use batch_weaver.Runtime.Loop.{
  Event, submitted, cancellation, completed, controlled, timer_fired, engine_done, is_engine_done,
  handle, finish_round, round,
}
use batch_weaver.Runtime.Shapes.{Shape, shapes}
use batch_weaver.Runtime.Frame.{
  Frame-trans, handle_submit-Frame, handle_cancel-Frame, retry_blocked-Frame,
}
use batch_weaver.Runtime.Bounded.{IsSmall, IsBounded}
use batch_weaver.Runtime.Bounded.Frames.{
  conclude-Frame, try_complete_barriers-Frame, fail_barriers-Frame, handle_engine_cancel-Frame,
}
use batch_weaver.Runtime.Bounded.Steps.{Frame-IsBounded, schedule-IsBounded}

module _ {K : Type 0} where
  length-delete_batch :
      (id : ℕ) (bs : List (Inflight K)) {b : Inflight K}
      → find_batch id bs ≡ some b
      → length bs ≡ suc (length (delete_batch id bs))
  unfolding find_batch delete_batch
  length-delete_batch id [] h = cc
  length-delete_batch id (x ∷ bs) {b} h = ground (arith, length-delete_batch id bs {b = b})

  All-delete_batch :
      (P : Shape → Type 0) (id : ℕ) (bs : List (Inflight K))
      → All P (shapes bs)
      → All P (shapes (delete_batch id bs))
  unfolding delete_batch
  All-delete_batch P id [] a = tt
  All-delete_batch P id (x ∷ bs) a = elim (Bool-cases (x.id == id)) [
    | inl e ↦ rw e a.1
    | inr e ↦ rw e (a.0, All-delete_batch P id bs a.1)
  ]

module _ {K V E : Type 0} where
  handle_complete-IsBounded :
      (now : ℕ) (done : CompleteReq V E) (c : Coordinator K V E)
      → IsBounded c
      → IsBounded (handle_complete now done c)
  unfolding handle_complete emit
  handle_complete-IsBounded now done c v =
      elim (Option-cases (find_batch done.batch_id c.inflight)) [
        | inl e ↦ rw (e, handle_complete) v
        | inr (b, e) ↦
            rw (e, handle_complete)
              (Frame-IsBounded
                (Frame-trans (conclude-Frame b done.completion _) (retry_blocked-Frame now _))
                (left b e))
      ]
    where
      left :
          (b : Inflight K)
          → find_batch done.batch_id c.inflight ≡ some b
          → IsBounded (
              emit
                (stored active_provider_calls (c.active_provider - 1) ∷ canceled b.id ∷ [])
                (record c {
                  inflight = delete_batch done.batch_id c.inflight;
                  active_provider = c.active_provider - 1;
                }))
      left b e = record {
        sized = v.sized;
        capable = v.capable;
        tuned = v.tuned;
        calls = omega (arith, v.calls, length-delete_batch done.batch_id c.inflight e);
        concurrency = omega (arith, v.concurrency);
        batches = All-delete_batch (IsSmall c.config) done.batch_id c.inflight v.batches;
      }

  handle_control-IsBounded :
      (now : ℕ) (ctrl : ControlReq) (c : Coordinator K V E)
      → IsBounded c
      → IsBounded (handle_control now ctrl c)
  unfolding handle_control
  handle_control-IsBounded now ctrl c v =
      Frame-IsBounded {c = schedule true now _}
        (record { config = refl; dyn = refl; calls = refl; batches = refl })
        (schedule-IsBounded true now _ start)
    where
      start : IsBounded (if is_close ctrl.kind then record c { closing = true } else c)
      start = elim (Bool-cases (is_close ctrl.kind)) [
        | inl e ↦ rw e (
            Frame-IsBounded {c = c}
              (record { config = refl; dyn = refl; calls = refl; batches = refl }) v)
        | inr e ↦ rw e v
      ]

  pub handle-IsBounded :
      (now : ℕ) (e : Event K V E) (c : Coordinator K V E) → IsBounded c → IsBounded (handle now e c)
  unfolding handle
  handle-IsBounded now (submitted req) c v = Frame-IsBounded (handle_submit-Frame now req c) v
  handle-IsBounded now (cancellation cr) c v = Frame-IsBounded (handle_cancel-Frame cr c) v
  handle-IsBounded now (completed done) c v = handle_complete-IsBounded now done c v
  handle-IsBounded now (controlled ctrl) c v = handle_control-IsBounded now ctrl c v
  handle-IsBounded now timer_fired c v = schedule-IsBounded false now _ (
      Frame-IsBounded {c = c} (record { config = refl; dyn = refl; calls = refl; batches = refl })
        v)
  handle-IsBounded now engine_done c v = Frame-IsBounded (handle_engine_cancel-Frame c) v

  finish_round-IsBounded :
      (now : ℕ) (expired : ℕ → Bool) (c : Coordinator K V E)
      → IsBounded c
      → IsBounded (finish_round now expired c).0
  unfolding finish_round
  finish_round-IsBounded now expired c v = elim (Bool-cases (d.closing && drained d)) [
    | inl e ↦ rw e (Frame-IsBounded (fail_barriers-Frame none d) u)
    | inr e ↦ rw e u
  ]
    where
      d : Coordinator K V E
      d = try_complete_barriers expired (schedule false now c)

      u : IsBounded d
      u = Frame-IsBounded (try_complete_barriers-Frame expired _) (schedule-IsBounded false now c v)

  -- One round of the event loop, for any event, keeps the limits: never more provider calls than
  -- the configured concurrency, one batch in flight for each, and every batch in flight small.
  pub round-IsBounded :
      (now : ℕ) (expired : ℕ → Bool) (e : Event K V E) (c : Coordinator K V E)
      → IsBounded c
      → IsBounded (round now expired e c).0
  unfolding round
  round-IsBounded now expired e c v =
      elim (Bool-cases (is_engine_done e && drained (handle now e c))) [
        | inl stop ↦ rw stop (handle-IsBounded now e c v)
        | inr on ↦ rw on (finish_round-IsBounded now expired _ (handle-IsBounded now e c v))
      ]
