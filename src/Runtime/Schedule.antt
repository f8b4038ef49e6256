-- ===== src/Runtime/Schedule.antt =====
-- runtime/coordinator_dispatch.go: the loops of `schedule`, and `computeNextTimer`.
use batch_weaver.Base.{
  ℕ, suc, zero, ◌+◌, ◌-◌, Bool, true, false, not, ◌&&◌, List, [], ◌∷◌, Option, none, some, Bytes,
  ltb, length, is_empty, if◌then◌else◌,
}
use batch_weaver.Runtime.Policy.{
  Config, immediate, fixed_window, deadline_aware, manually, effective_max_wait,
  effective_max_concurrency,
}
use batch_weaver.Runtime.State.{
  Item, Partition, Coordinator, emit, find_partition, partition_keys, subtracted, queued_items,
}
use batch_weaver.Runtime.Cancel.{maybe_retire, write_back}
use batch_weaver.Runtime.Select.{earlier, earliest_deadline}
use batch_weaver.Runtime.Dispatch.{prune, count_pruned, should_dispatch, dispatch_batch}

module _ {K : Type 0} where
  -- The next time-based flush of a partition.
  unfoldable pub next_flush : Config K → ℕ → List (Item K) → Option ℕ
  unfolding earlier earliest_deadline
  next_flush cfg wait [] = none
  next_flush cfg wait (it ∷ its) =
      let window : Option ℕ = if ltb 0 wait then some (it.enqueue + wait) else none in
      elim cfg.flush_mode [
        | immediate ↦ none
        | manually ↦ none
        | fixed_window ↦ window
        | deadline_aware ↦ earlier window (elim (earliest_deadline (it ∷ its)) [
          | none ↦ none
          | some t ↦ some (t - cfg.deadline_margin)
        ])
      ]

  unfoldable pub next_time : Config K → ℕ → List (Partition K) → Option ℕ
  unfolding earlier next_flush
  next_time cfg wait [] = none
  next_time cfg wait (p ∷ ps) = earlier (next_flush cfg wait p.pending) (next_time cfg wait ps)

module _ {K V E : Type 0} where
  abbrev pub max_calls : Coordinator K V E → ℕ
  max_calls c = effective_max_concurrency c.config c.dyn

  -- `prune`, with the retirement of a partition that it empties.
  unfoldable pub prune_partition : Partition K → Coordinator K V E → Partition K × Coordinator K V E
  unfolding emit
  prune_partition p c =
      let n = count_pruned p.pending in
      if ltb 0 n
      then (let q = prune p.pending p in
          (q, write_back q (emit (subtracted queued_items n ∷ []) c)))
      else (p, c)

  -- May the loop go on with this partition?
  unfoldable pub can_dispatch : Partition K → Coordinator K V E → Bool
  can_dispatch p c = not (is_empty p.pending) && ltb c.active_provider (max_calls c)

  -- The inner loop. Each round leaves fewer items pending, so as many rounds as there are pending
  -- items are enough.
  unfoldable pub dispatch_loop :
      ℕ → Bool → ℕ → Partition K → Coordinator K V E → Partition K × Coordinator K V E
  unfolding can_dispatch
  dispatch_loop zero force now p c = (p, c)
  dispatch_loop (suc fuel) force now p c = elim (can_dispatch p c) [
    | false ↦ (p, c)
    | true ↦
        let (q, d) = prune_partition p c in
        elim (should_dispatch q force now d) [
          | none ↦ (q, d)
          | some reason ↦ let (r, e) = dispatch_batch q reason d in dispatch_loop fuel force now r e
        ]
  ]

  unfoldable pub schedule_partition : Bool → ℕ → Bytes → Coordinator K V E → Coordinator K V E
  schedule_partition force now k c = elim (find_partition k c.partitions) [
    | none ↦ c
    | some p ↦ let (q, d) = dispatch_loop (length p.pending) force now p c in maybe_retire q d
  ]

  unfoldable pub schedule_keys : Bool → ℕ → List Bytes → Coordinator K V E → Coordinator K V E
  schedule_keys force now [] c = c
  schedule_keys force now (k ∷ ks) c = schedule_keys force now ks (schedule_partition force now k c)

  -- `computeNextTimer`: the wait of the timer. A time that has passed is a wait of zero, which is
  -- also what the truncated differences give.
  unfoldable pub compute_next_timer : ℕ → Coordinator K V E → Coordinator K V E
  compute_next_timer now c = record c {
    timer = elim (next_time c.config (effective_max_wait c.config c.dyn) c.partitions) [
      | none ↦ none
      | some t ↦ some (t - now)
    ];
  }

  -- `schedule`
  unfoldable pub schedule : Bool → ℕ → Coordinator K V E → Coordinator K V E
  schedule force now c =
      compute_next_timer now (schedule_keys force now (partition_keys c.partitions) c)
