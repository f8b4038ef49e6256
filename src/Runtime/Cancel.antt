-- ===== src/Runtime/Cancel.antt =====
-- runtime/coordinator_handlers.go: `handleCancel`, `removePendingItem` and `maybeRetire`. A waiter's
-- identifier is unique, so the walk over the index may take the items in any order.
use mathlib.Core.Option
use batch_weaver.Base.{
  ℕ, ◌-◌, Bool, false, ◌&&◌, List, [], ◌∷◌, Option, none, some, pred_ℤ, is_zero, Bytes, bytes_eq,
  ◌==◌, length, is_empty, if◌then◌else◌,
}
use batch_weaver.Runtime.State.{
  Waiter, Item, Partition, Inflight, SubmitReq, CancelReq, Coordinator, sub_i64, emit,
  find_partition, put_partition, delete_partition, active_items, added, subtracted, stored,
  canceled, active_partitions, queued_items, queued_waiters, total_cancellations,
}

-- The waiter is found if it is still active, and is active no more.
unfoldable pub cancel_waiter : ℕ → List Waiter → Option (List Waiter)
cancel_waiter id [] = none
cancel_waiter id (w ∷ ws) =
    if w.id == id && w.active
    then some (record w { active = false } ∷ ws)
    else Option.map (λ rest. w ∷ rest) (cancel_waiter id ws)

module _ {K : Type 0} where
  unfoldable pub cancel_item : ℕ → Item K → Option (Item K)
  unfolding cancel_waiter
  cancel_item id it =
      Option.map (λ ws. record it { waiters = ws; active_waiters = it.active_waiters - 1 })
        (cancel_waiter id it.waiters)

  -- The first item that holds the waiter, as it is after the cancellation, and the list with it.
  unfoldable pub cancel_in : ℕ → List (Item K) → Option (Item K × List (Item K))
  unfolding cancel_item
  cancel_in id [] = none
  cancel_in id (it ∷ its) = elim (cancel_item id it) [
    | some it' ↦ some (it', it' ∷ its)
    | none ↦ Option.map (λ r. (r.0, it ∷ r.1)) (cancel_in id its)
  ]

  -- `removePendingItem` on the pending list: the item goes, wherever it stands.
  unfoldable pub remove_item : ℕ → List (Item K) → List (Item K)
  remove_item id [] = []
  remove_item id (it ∷ its) = if it.id == id then its else it ∷ remove_item id its

  unfoldable pub remove_pending_item : Item K → Partition K → Partition K
  unfolding remove_item sub_i64
  remove_pending_item it p = record p {
    pending = remove_item it.id p.pending;
    bytes = sub_i64 p.bytes it.bytes;
    weight = sub_i64 p.weight it.weight;
    live = p.live - 1;
  }

  -- The batch of a waiter that leaves: its count falls only when an item has lost its last waiter,
  -- and the second part says whether the batch is to be canceled.
  unfoldable pub leave_batch : Item K → List (Item K) → Inflight K → Inflight K × Bool
  leave_batch it its b =
      if it.active_waiters == 0
      then (let n = pred_ℤ b.active_waiters in
          (record b { items = its; active_waiters = n }, is_zero n))
      else (record b { items = its }, false)

  unfoldable pub cancel_in_batches :
      Bytes → ℕ → List (Inflight K) → Option (List (Inflight K) × Option ℕ)
  unfolding cancel_in leave_batch
  cancel_in_batches part id [] = none
  cancel_in_batches part id (b ∷ bs) =
      elim (if bytes_eq b.partition part then cancel_in id b.items else none) [
        | some (it, its) ↦
            let (b', over) = leave_batch it its b in
            some (b' ∷ bs, if over then some b.id else none)
        | none ↦ Option.map (λ r. (b ∷ r.0, r.1)) (cancel_in_batches part id bs)
      ]

  unfoldable pub unblock : ℕ → List (SubmitReq K) → List (SubmitReq K)
  unblock id [] = []
  unblock id (req ∷ reqs) = if req.waiter.id == id then reqs else req ∷ unblock id reqs

module _ {K V E : Type 0} where
  -- `maybeRetire`, for the partition as it now is.
  unfoldable pub maybe_retire : Partition K → Coordinator K V E → Coordinator K V E
  unfolding emit
  maybe_retire p c =
      if p.live == 0 && is_empty (active_items p c.inflight)
      then (let ps = delete_partition p.part c.partitions in
          emit (stored active_partitions (length ps) ∷ []) (record c { partitions = ps }))
      else c

  -- A partition is written back, and retired if it is done.
  unfoldable pub write_back : Partition K → Coordinator K V E → Coordinator K V E
  write_back p c = maybe_retire p (record c { partitions = put_partition p c.partitions })

  -- A pending item after one of its waiters left.
  unfoldable pub leave_pending :
      Partition K → Item K → List (Item K) → Coordinator K V E → Coordinator K V E
  unfolding emit
  leave_pending p it its c =
      let q = record p { pending = its; waiters = p.waiters - 1 } in
      let c' = emit (subtracted queued_waiters 1 ∷ added total_cancellations 1 ∷ []) c in
      if it.active_waiters == 0
      then write_back (remove_pending_item it q) (emit (subtracted queued_items 1 ∷ []) c')
      else record c' { partitions = put_partition q c'.partitions }

  unfoldable pub leave_flying :
      Partition K → List (Inflight K) → Option ℕ → Coordinator K V E → Coordinator K V E
  unfolding emit
  leave_flying p bs over c =
      emit
        (subtracted queued_waiters 1
          ∷ added total_cancellations 1
          ∷ elim over [ none ↦ [] | some b ↦ canceled b ∷ [] ])
        (record c {
          inflight = bs;
          partitions = put_partition (record p { waiters = p.waiters - 1 }) c.partitions;
        })

  unfoldable pub cancel_active : Partition K → ℕ → Coordinator K V E → Coordinator K V E
  cancel_active p id c = elim (cancel_in_batches p.part id c.inflight) [
    | some (bs, over) ↦ leave_flying p bs over c
    | none ↦ elim (cancel_in id p.pending) [ some (it, its) ↦ leave_pending p it its c | none ↦ c ]
  ]

  unfoldable pub handle_cancel : CancelReq → Coordinator K V E → Coordinator K V E
  handle_cancel cr c =
      if cr.blocked
      then record c { blocked = unblock cr.waiter_id c.blocked }
      else elim (find_partition cr.part c.partitions) [
        | none ↦ c
        | some p ↦ cancel_active p cr.waiter_id c
      ]
