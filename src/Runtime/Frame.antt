-- ===== src/Runtime/Frame.antt =====
-- The part of a coordinator that its limits speak of: the configuration, the tuned settings, the
-- number of provider calls, and what each batch in flight weighs. The handlers that start and end
-- no batch leave it as it is.
use batch_weaver.Base.{
  ℕ, ◌≡◌, refl, ◌∙◌, Bool, List, [], ◌∷◌, some, arith, Option-cases, inl, inr, false, true, ◌+◌,
  ◌++◌, length, ◌==◌, Bool-cases,
}
use batch_weaver.Runtime.State.{
  Partition, SubmitReq, CancelReq, Category, Coordinator, Effect, emit, find_partition,
  put_partition, stored, active_partitions, Item,
}
use batch_weaver.Runtime.Submit.{
  join_items, join_batches, overflow, joined, join_request, enqueue, admit, handle_submit,
  retry_all, retry_blocked, over_limits, new_partition,
}
use batch_weaver.Runtime.Cancel.{
  cancel_in, cancel_in_batches, maybe_retire, write_back, leave_pending, leave_flying,
  cancel_active, handle_cancel,
}
use batch_weaver.Runtime.Shapes.{shapes, shapes-join_batches, shapes-cancel_in_batches}

module _ {K V E : Type 0} where
  pub record Frame (c d : Coordinator K V E) : Type 0 where
    pub config : d.config ≡ c.config
    pub dyn : d.dyn ≡ c.dyn
    pub calls : d.active_provider ≡ c.active_provider
    pub batches : shapes d.inflight ≡ shapes c.inflight

  pub Frame-refl : (c : Coordinator K V E) → Frame c c
  Frame-refl c = record { config = refl; dyn = refl; calls = refl; batches = refl }

  pub Frame-trans : {c d e : Coordinator K V E} → Frame c d → Frame d e → Frame c e
  Frame-trans f g = record {
    config = g.config ∙ f.config;
    dyn = g.dyn ∙ f.dyn;
    calls = g.calls ∙ f.calls;
    batches = g.batches ∙ f.batches;
  }

  pub emit-Frame : (es : List (Effect K V E)) (c : Coordinator K V E) → Frame c (emit es c)
  unfolding emit
  emit-Frame es c = record { config = refl; dyn = refl; calls = refl; batches = refl }

  overflow-Frame :
      (req : SubmitReq K) (g : Category) (b : Bool) (c : Coordinator K V E)
      → Frame c (overflow req g b c)
  unfolding overflow
  overflow-Frame req g b c = ground arith

  join_request-Frame :
      (p : Partition K) (req : SubmitReq K) (c : Coordinator K V E) {d : Coordinator K V E}
      → join_request p req c ≡ some d
      → Frame c d
  unfolding join_request joined
  join_request-Frame p req c {d} h =
      elim (Option-cases (join_batches c.config.equal req c.inflight)) [
        | inl e ↦ elim (Option-cases (join_items c.config.equal req p.pending)) [
          | inl m ↦ ground (arith, e, m)
          | inr (its, m) ↦ ground (arith, e, m)
        ]
        | inr (bs, e) ↦ ground (arith, e, shapes-join_batches c.config.equal req c.inflight e)
      ]

  enqueue-Frame :
      (now : ℕ) (p : Partition K) (req : SubmitReq K) (c : Coordinator K V E)
      → Frame c (enqueue now p req c)
  unfolding enqueue
  enqueue-Frame now p req c = record { config = refl; dyn = refl; calls = refl; batches = refl }

  admit-Frame :
      (now : ℕ) (p : Partition K) (req : SubmitReq K) (c : Coordinator K V E)
      → Frame c (admit now p req c)
  unfolding admit
  admit-Frame now p req c = elim (Option-cases (join_request p req c)) [
    | inl e ↦ elim (Option-cases (over_limits c.config.limits p req)) [
      | inl m ↦ ground (arith, e, m, enqueue-Frame now p req c)
      | inr (g, m) ↦ ground (arith, e, m, overflow-Frame req g false c)
    ]
    | inr (d, e) ↦ elim (Option-cases (over_limits c.config.limits p req)) [
      | inl m ↦ ground (arith, e, m, join_request-Frame p req c e, enqueue-Frame now p req c)
      | inr (g, m) ↦
          ground (arith, e, m, join_request-Frame p req c e, overflow-Frame req g false c)
    ]
  ]

  pub handle_submit-Frame :
      (now : ℕ) (req : SubmitReq K) (c : Coordinator K V E) → Frame c (handle_submit now req c)
  unfolding handle_submit
  handle_submit-Frame now req c = elim (Option-cases (find_partition req.part c.partitions)) [
    | inl e ↦ ground (
      arith,
      e,
      overflow-Frame req Category.partitions true c,
      admit-Frame now (new_partition req.part) req (
          emit (stored active_partitions (length c.partitions + 1) ∷ [])
            (record c { partitions = c.partitions ++ new_partition req.part ∷ [] })),
    )
    | inr (p, e) ↦ ground (arith, e, admit-Frame now p req c)
  ]

  retry_all-Frame :
      (now : ℕ) (reqs : List (SubmitReq K)) (c : Coordinator K V E) → Frame c (retry_all now reqs c)
  unfolding retry_all
  retry_all-Frame now [] c = Frame-refl c
  retry_all-Frame now (req ∷ reqs) c =
      Frame-trans (handle_submit-Frame now req c)
        (retry_all-Frame now reqs (handle_submit now req c))

  pub retry_blocked-Frame : (now : ℕ) (c : Coordinator K V E) → Frame c (retry_blocked now c)
  unfolding retry_blocked
  retry_blocked-Frame now c =
      Frame-trans {d = record c { blocked = [] }}
        (record { config = refl; dyn = refl; calls = refl; batches = refl })
        (retry_all-Frame now c.blocked (record c { blocked = [] }))

  pub maybe_retire-Frame : (p : Partition K) (c : Coordinator K V E) → Frame c (maybe_retire p c)
  unfolding maybe_retire
  maybe_retire-Frame p c = ground arith

  pub write_back-Frame : (p : Partition K) (c : Coordinator K V E) → Frame c (write_back p c)
  unfolding write_back
  write_back-Frame p c =
      Frame-trans {d = record c { partitions = put_partition p c.partitions }}
        (record { config = refl; dyn = refl; calls = refl; batches = refl })
        (maybe_retire-Frame p _)

  leave_pending-Frame :
      (p : Partition K) (it : Item K) (its : List (Item K)) (c : Coordinator K V E)
      → Frame c (leave_pending p it its c)
  unfolding leave_pending
  leave_pending-Frame p it its c = elim (Bool-cases (it.active_waiters == 0)) [
    | inl e ↦
        rw e (Frame-trans (Frame-trans (emit-Frame _ c) (emit-Frame _ _)) (write_back-Frame _ _))
    | inr e ↦ rw e (record { config = refl; dyn = refl; calls = refl; batches = refl })
  ]

  cancel_active-Frame :
      (p : Partition K) (id : ℕ) (c : Coordinator K V E) → Frame c (cancel_active p id c)
  unfolding cancel_active leave_flying
  cancel_active-Frame p id c = elim (Option-cases (cancel_in_batches p.part id c.inflight)) [
    | inl e ↦ elim (Option-cases (cancel_in id p.pending)) [
      | inl m ↦ ground (arith, e, m)
      | inr ((it, its), m) ↦ ground (arith, e, m, leave_pending-Frame p it its c)
    ]
    | inr ((bs, over), e) ↦ ground (arith, e, shapes-cancel_in_batches p.part id c.inflight e)
  ]

  pub handle_cancel-Frame : (cr : CancelReq) (c : Coordinator K V E) → Frame c (handle_cancel cr c)
  unfolding handle_cancel
  handle_cancel-Frame cr c = elim (Option-cases (find_partition cr.part c.partitions)) [
    | inl e ↦ ground (arith, e)
    | inr (p, e) ↦ ground (arith, e, cancel_active-Frame p cr.waiter_id c)
  ]
