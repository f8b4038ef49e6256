-- ===== src/Runtime/Bounded/Steps.antt =====
-- Every event keeps the coordinator within its limits.
use batch_weaver.Base.{
  ℕ, suc, zero, ◌≤◌, ◌<◌, ◌≡◌, refl, ap, Bool, true, List, [], ◌∷◌, ◌++◌, Option, none, some, arith,
  length, All-append, length-append, is_empty, Bytes, Option-cases, Bool-cases, Result-cases, inl,
  inr,
}
use batch_weaver.Message.Request.{BatchRequest, new_batch_request}
use batch_weaver.Runtime.Policy.{
  Config, DynamicSettings, FlushReason, effective_max_batch_size, effective_max_concurrency,
}
use batch_weaver.Runtime.State.{
  Item, Partition, Inflight, Coordinator, emit, find_partition, partition_keys,
}
use batch_weaver.Runtime.Select.{Selection, select}
use batch_weaver.Runtime.Select.Bounds.{select_bounds}
use batch_weaver.Runtime.Dispatch.{
  limits, launch, settle, dispatch_selection, dispatch_batch, should_dispatch, batch_items,
}
use batch_weaver.Runtime.Schedule.{
  max_calls, can_dispatch, prune_partition, dispatch_loop, schedule_partition, schedule_keys,
  schedule,
}
use batch_weaver.Runtime.Shapes.{shape, shapes}
use batch_weaver.Runtime.Frame.{Frame, maybe_retire-Frame}
use batch_weaver.Runtime.Bounded.{IsSmall, IsTuned, IsBounded}
use batch_weaver.Runtime.Bounded.Frames.{compute_next_timer-Frame, prune_partition-Frame}

module _ {K : Type 0} where
  length-shapes : (bs : List (Inflight K)) → length (shapes bs) ≡ length bs
  length-shapes [] = refl
  length-shapes (b ∷ bs) = ap suc (length-shapes bs)

  shapes-append : (bs cs : List (Inflight K)) → shapes (bs ++ cs) ≡ shapes bs ++ shapes cs
  shapes-append [] cs = refl
  shapes-append (b ∷ bs) cs = ap (λ s. shape b.items ∷ s) (shapes-append bs cs)

  effective_size_bounds :
      (cfg : Config K) (o : Option DynamicSettings)
      → 1 ≤ cfg.max_batch_size
      → IsTuned cfg o
      → (1 ≤ effective_max_batch_size cfg o) × (effective_max_batch_size cfg o ≤ cfg.max_batch_size)
  unfolding effective_max_batch_size
  effective_size_bounds cfg none h t = omega arith
  effective_size_bounds cfg (some ds) h t = omega arith

  effective_concurrency_bound :
      (cfg : Config K) (o : Option DynamicSettings)
      → IsTuned cfg o
      → effective_max_concurrency cfg o ≤ cfg.max_concurrency
  unfolding effective_max_concurrency
  effective_concurrency_bound cfg none t = omega arith
  effective_concurrency_bound cfg (some ds) t = omega arith

module _ {K V E : Type 0} where
  pub Frame-IsBounded : {c d : Coordinator K V E} → Frame c d → IsBounded c → IsBounded d
  Frame-IsBounded {c} {d} f v = record {
    sized = rw f.config v.sized;
    capable = rw f.config v.capable;
    tuned = rw (f.config, f.dyn) v.tuned;
    calls = omega (
      arith,
      v.calls,
      f.calls,
      length-shapes c.inflight,
      length-shapes d.inflight,
      ap length f.batches,
    );
    concurrency = rw (f.config, f.calls) v.concurrency;
    batches = rw (f.config, f.batches) v.batches;
  }

  settle-Frame :
      (s : Selection K) (p : Partition K) (c : Coordinator K V E) → Frame c (settle s p c)
  unfolding settle emit
  settle-Frame s p c = record { config = refl; dyn = refl; calls = refl; batches = refl }

  abbrev Fits : Coordinator K V E → Selection K → Type 0
  Fits c s = IsSmall c.config (shape s.selected)

  select-Fits :
      (c : Coordinator K V E) (its : List (Item K))
      → IsBounded c
      → Fits c (select (limits c) 0 0 0 its)
  select-Fits c its v =
      let (low, high) = effective_size_bounds c.config c.dyn v.sized v.tuned in
      let (size, weight, bytes) = select_bounds (limits c) its low in
      record { size = omega arith; weight = weight; bytes = bytes }

  launch-IsBounded :
      (s : Selection K) (p : Partition K) (r : FlushReason) (q : BatchRequest K)
      (c : Coordinator K V E)
      → IsBounded c
      → Fits c s
      → c.active_provider < c.config.max_concurrency
      → IsBounded (launch s p r q c).1
  unfolding launch emit
  launch-IsBounded s p r q c v f h = record {
    sized = v.sized;
    capable = v.capable;
    tuned = v.tuned;
    calls = omega (arith, v.calls, length-append {0} c.inflight);
    concurrency = omega arith;
    batches = rw shapes-append (All-append (IsSmall c.config) _ _ v.batches (f, tt));
  }

  dispatch_selection-IsBounded :
      (s : Selection K) (p : Partition K) (r : FlushReason) (c : Coordinator K V E)
      → IsBounded c
      → Fits c s
      → c.active_provider < c.config.max_concurrency
      → IsBounded (dispatch_selection s p r c).1
  unfolding dispatch_selection
  dispatch_selection-IsBounded s p r c v f h = elim (Bool-cases (is_empty s.selected)) [
    | inl e ↦ rw e v
    | inr e ↦ elim (Result-cases (new_batch_request (batch_items s.selected))) [
      | inl (q, m) ↦ rw (e, m, dispatch_selection) (launch-IsBounded s p r q c v f h)
      | inr (x, m) ↦
          rw (e, m, dispatch_selection)
            (Frame-IsBounded {c = c}
              (record { config = refl; dyn = refl; calls = refl; batches = refl }) v)
    ]
  ]

  dispatch_batch-IsBounded :
      (p : Partition K) (r : FlushReason) (c : Coordinator K V E)
      → IsBounded c
      → c.active_provider < max_calls c
      → IsBounded (dispatch_batch p r c).1
  unfolding dispatch_batch settle emit
  dispatch_batch-IsBounded p r c v h =
      let s = select (limits c) 0 0 0 p.pending in
      dispatch_selection-IsBounded s p r (settle s p c) (Frame-IsBounded (settle-Frame s p c) v)
        (select-Fits c p.pending v)
        (omega (arith, effective_concurrency_bound c.config c.dyn v.tuned))

  can_dispatch_lt :
      (p : Partition K) (c : Coordinator K V E)
      → can_dispatch p c ≡ true
      → c.active_provider < max_calls c
  unfolding can_dispatch
  can_dispatch_lt p c h = ground arith

  Frame-lt :
      {c d : Coordinator K V E}
      → Frame c d
      → c.active_provider < max_calls c
      → d.active_provider < max_calls d
  Frame-lt f h = rw (f.config, f.dyn, f.calls) h

  dispatch_loop-IsBounded :
      (fuel : ℕ) (force : Bool) (now : ℕ) (p : Partition K) (c : Coordinator K V E)
      → IsBounded c
      → IsBounded (dispatch_loop fuel force now p c).1
  unfolding dispatch_loop
  dispatch_loop-IsBounded zero force now p c v = v
  dispatch_loop-IsBounded (suc fuel) force now p c v = elim (Bool-cases (can_dispatch p c)) [
    | inr stop ↦ rw (stop, dispatch_loop) v
    | inl go ↦
        let q = (prune_partition p c).0 in
        let d = (prune_partition p c).1 in
        let f = prune_partition-Frame p c in
        let u = Frame-IsBounded f v in
        elim (Option-cases (should_dispatch q force now d)) [
          | inl stop ↦ rw (go, stop, dispatch_loop) u
          | inr (reason, due) ↦
              let b = dispatch_batch q reason d in
              let w = dispatch_batch-IsBounded q reason d u (Frame-lt f (can_dispatch_lt p c go)) in
              rw (go, due, dispatch_loop) (dispatch_loop-IsBounded fuel force now b.0 b.1 w)
        ]
  ]

  schedule_keys-IsBounded :
      (force : Bool) (now : ℕ) (ks : List Bytes) (c : Coordinator K V E)
      → IsBounded c
      → IsBounded (schedule_keys force now ks c)
  unfolding schedule_keys schedule_partition
  schedule_keys-IsBounded force now [] c v = v
  schedule_keys-IsBounded force now (k ∷ ks) c v = schedule_keys-IsBounded force now ks _ step
    where
      step : IsBounded (schedule_partition force now k c)
      step = elim (Option-cases (find_partition k c.partitions)) [
        | inl e ↦ rw (e, schedule_partition) v
        | inr (p, e) ↦
            rw (e, schedule_partition)
              (Frame-IsBounded (maybe_retire-Frame _ _)
                (dispatch_loop-IsBounded (length p.pending) force now p c v))
      ]

  pub schedule-IsBounded :
      (force : Bool) (now : ℕ) (c : Coordinator K V E)
      → IsBounded c
      → IsBounded (schedule force now c)
  unfolding schedule
  schedule-IsBounded force now c v =
      Frame-IsBounded (compute_next_timer-Frame now _)
        (schedule_keys-IsBounded force now (partition_keys c.partitions) c v)
