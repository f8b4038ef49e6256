-- ===== src/Runtime/Drained.antt =====
-- `schedule` does all that is due: its inner loop ends by its own test, never for want of rounds.
use batch_weaver.Base.{
  ℕ, suc, zero, ◌≤◌, ◌<◌, ◌≡◌, refl, ◌⊎◌, inl, inr, Bool, true, false, List, [], ◌∷◌, none, some,
  arith, length, is_empty, Option-cases, Bool-cases, Result-cases, ltb, not, ◌&&◌,
}
use batch_weaver.Message.Request.{new_batch_request}
use batch_weaver.Runtime.Policy.{FlushReason}
use batch_weaver.Runtime.State.{Item, Partition, Coordinator}
use batch_weaver.Runtime.Cancel.{remove_item, remove_pending_item}
use batch_weaver.Runtime.Select.{Selection, select}
use batch_weaver.Runtime.Select.Bounds.{length-select_lt}
use batch_weaver.Runtime.Dispatch.{
  prune, should_dispatch, should_dispatch_from, limits, after_walk, take_off, launch,
  dispatch_selection, dispatch_batch, batch_items,
}
use batch_weaver.Runtime.Schedule.{max_calls, can_dispatch, prune_partition, dispatch_loop}

module _ {K : Type 0} where
  length-remove_item : (id : ℕ) (its : List (Item K)) → length (remove_item id its) ≤ length its
  unfolding remove_item
  length-remove_item id [] = omega arith
  length-remove_item id (it ∷ its) = ground (arith, length-remove_item id its)

  length-prune :
      (its : List (Item K)) (p : Partition K) → length (prune its p).pending ≤ length p.pending
  unfolding prune remove_pending_item
  length-prune [] p = omega arith
  length-prune (it ∷ its) p =
      ground
        (arith, length-prune its (remove_pending_item it p), length-remove_item it.id p.pending)

module _ {K V E : Type 0} where
  pending-dispatch_batch :
      (p : Partition K) (r : FlushReason) (c : Coordinator K V E)
      → (dispatch_batch p r c).0.pending ≡ (select (limits c) 0 0 0 p.pending).remaining
  unfolding dispatch_batch dispatch_selection launch take_off after_walk
  pending-dispatch_batch p r c = elim (Bool-cases (is_empty s.selected)) [
    | inl e ↦ rw e refl
    | inr e ↦ elim (Result-cases (new_batch_request (batch_items s.selected))) [
      | inl (q, m) ↦ ground (arith, e, m)
      | inr (x, m) ↦ ground (arith, e, m)
    ]
  ]
    where
      s : Selection K
      s = select (limits c) 0 0 0 p.pending

  length-prune_partition :
      (p : Partition K) (c : Coordinator K V E)
      → length (prune_partition p c).0.pending ≤ length p.pending
  unfolding prune_partition
  length-prune_partition p c = ground (arith, length-prune p.pending p)

  due_nonempty :
      (its : List (Item K)) (p : Partition K) (force : Bool) (now : ℕ) (c : Coordinator K V E)
      {r : FlushReason}
      → should_dispatch_from its p force now c ≡ some r
      → (it : Item K) × (rest : List (Item K)) × (its ≡ it ∷ rest)
  unfolding should_dispatch_from
  due_nonempty [] p force now c h = cc
  due_nonempty (it ∷ its) p force now c h = (it, its, refl)

  length-dispatch_batch :
      (p : Partition K) (force : Bool) (now : ℕ) (c : Coordinator K V E) (r : FlushReason)
      → should_dispatch p force now c ≡ some r
      → length (dispatch_batch p r c).0.pending < length p.pending
  unfolding should_dispatch
  length-dispatch_batch p force now c r h =
      let (it, rest, e) = due_nonempty p.pending p force now c h in
      rw (pending-dispatch_batch p r c) (rw e (length-select_lt (limits c) it rest))

  can_dispatch_nil :
      (p : Partition K) (c : Coordinator K V E) → length p.pending ≡ 0 → can_dispatch p c ≡ false
  unfolding can_dispatch
  can_dispatch_nil p c h = nothing p.pending h
    where
      nothing :
          (its : List (Item K))
          → length its ≡ 0
          → (not (is_empty its) && ltb c.active_provider (max_calls c)) ≡ false
      nothing [] e = refl
      nothing (it ∷ its) e = absurd (omega arith)

  stopped :
      (p : Partition K) (c : Coordinator K V E)
      → can_dispatch p c ≡ false
      → (p.pending ≡ []) ⊎ (max_calls c ≤ c.active_provider)
  unfolding can_dispatch
  stopped p c h = ground arith

  forced :
      (its : List (Item K)) (p : Partition K) (now : ℕ) (c : Coordinator K V E)
      → should_dispatch_from its p true now c ≡ none
      → its ≡ []
  unfolding should_dispatch_from
  forced [] p now c h = refl
  forced (it ∷ its) p now c h = cc

  -- With as many rounds as there are pending items, the loop over a partition ends only when
  -- nothing is pending, when all the provider calls that are allowed are running, or when what is
  -- pending is not due.
  pub dispatch_loop_exhausts :
      (fuel : ℕ) (force : Bool) (now : ℕ) (p : Partition K) (c : Coordinator K V E)
      → length p.pending ≤ fuel
      → let (q, d) = dispatch_loop fuel force now p c in
        (can_dispatch q d ≡ false) ⊎ (should_dispatch q force now d ≡ none)
  unfolding dispatch_loop
  dispatch_loop_exhausts zero force now p c h = inl (can_dispatch_nil p c (omega arith))
  dispatch_loop_exhausts (suc fuel) force now p c h = elim (Bool-cases (can_dispatch p c)) [
    | inr stop ↦ rw (stop, dispatch_loop) (inl stop)
    | inl go ↦
        let q = (prune_partition p c).0 in
        let d = (prune_partition p c).1 in
        elim (Option-cases (should_dispatch q force now d)) [
          | inl wait ↦ rw (go, wait, dispatch_loop) (inr wait)
          | inr (r, due) ↦
              let b = dispatch_batch q r d in
              rw (go, due, dispatch_loop)
                (dispatch_loop_exhausts fuel force now b.0 b.1 (
                  omega
                    (arith, length-prune_partition p c, length-dispatch_batch q force now d r due)))
        ]
  ]

  -- A forced schedule of a partition leaves nothing pending in it, unless all the provider calls
  -- that are allowed are running.
  pub dispatch_loop_forced :
      (now : ℕ) (p : Partition K) (c : Coordinator K V E)
      → let (q, d) = dispatch_loop (length p.pending) true now p c in
        (q.pending ≡ []) ⊎ (max_calls d ≤ d.active_provider)
  unfolding should_dispatch
  dispatch_loop_forced now p c =
      let r = dispatch_loop (length p.pending) true now p c in
      elim (dispatch_loop_exhausts (length p.pending) true now p c (omega arith)) [
        | inl stop ↦ stopped r.0 r.1 stop
        | inr wait ↦ inl (forced r.0.pending r.0 now r.1 wait)
      ]
