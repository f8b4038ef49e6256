-- ===== src/Runtime/Leaks.antt =====
-- Where the coordinator's accounts and what they count come apart (runtime/coordinator_handlers.go
-- and coordinator_dispatch.go).
use batch_weaver.Base.{
  ◌-◌, ◌<◌, ◌≡◌, ◌≢◌, refl, subst, true, false, List, [], ◌∷◌, none, some, arith, length, Bytes,
  bytes_eq, bytes_eq_refl, eq_of_bytes_eq, Option-cases, Bool-cases, inl, inr, ◌==◌, ==_refl, pos,
  All,
}
use batch_weaver.Message.Response.{validate_against}
use batch_weaver.Runtime.Policy.{FlushReason}
use batch_weaver.Runtime.State.{
  Waiter, Item, Partition, Inflight, Completion, Coordinator, emit, find_partition, put_partition,
  panicked, failed, answered,
}
use batch_weaver.Runtime.Cancel.{
  cancel_waiter, cancel_item, cancel_in, leave_batch, cancel_in_batches, maybe_retire, write_back,
}
use batch_weaver.Runtime.Select.{BatchLimits, select, item_too_large}
use batch_weaver.Runtime.Dispatch.{after_walk, dispatch_selection, dispatch_batch, limits}
use batch_weaver.Runtime.Complete.{ids_of, leave_partition, fail_batch, distribute, conclude}

module _ {K : Type 0} where
  part-find_partition :
      (k : Bytes) (ps : List (Partition K)) {p : Partition K}
      → find_partition k ps ≡ some p
      → bytes_eq p.part k ≡ true
  unfolding find_partition
  part-find_partition k [] h = cc
  part-find_partition k (q ∷ ps) {p} h = elim (Bool-cases (bytes_eq q.part k)) [
    | inl e ↦ let same : q ≡ p = ground (arith, e) in subst (λ r. bytes_eq r.part k ≡ true) same e
    | inr e ↦ part-find_partition k ps {p = p} (ground (arith, e))
  ]

  pub find_partition-put_partition :
      (q : Partition K) (ps : List (Partition K))
      → find_partition q.part (put_partition q ps) ≡ some q
  unfolding find_partition put_partition
  find_partition-put_partition q [] = rw (bytes_eq_refl q.part)
  find_partition-put_partition q (p ∷ ps) = elim (Bool-cases (bytes_eq p.part q.part)) [
    | inl e ↦ ground (arith, e, bytes_eq_refl q.part)
    | inr e ↦ ground (arith, e, find_partition-put_partition q ps)
  ]

  pub find_partition-put_named :
      (k : Bytes) (q : Partition K) (ps : List (Partition K))
      → bytes_eq q.part k ≡ true
      → find_partition k (put_partition q ps) ≡ some q
  find_partition-put_named k q ps h =
      subst (λ j. find_partition j (put_partition q ps) ≡ some q) (eq_of_bytes_eq q.part k h)
        (find_partition-put_partition q ps)

module _ {K V E : Type 0} where
  -- A partition with live items is not retired.
  partitions-write_back :
      (q : Partition K) (c : Coordinator K V E)
      → 0 < q.live
      → (write_back q c).partitions ≡ put_partition q c.partitions
  unfolding write_back maybe_retire
  partitions-write_back q c h = ground (arith, h)

  partitions-conclude :
      (b : Inflight K) (d : Completion V E) (c : Coordinator K V E)
      → (conclude b d c).partitions ≡ (leave_partition b c).partitions
  unfolding conclude fail_batch emit leave_partition write_back maybe_retire distribute
  partitions-conclude b (panicked v) c =
      elim (Option-cases (find_partition b.partition c.partitions)) [
        | inl e ↦ ground (arith, e)
        | inr (p, e) ↦ ground (arith, e)
      ]
  partitions-conclude b (failed x) c =
      elim (Option-cases (find_partition b.partition c.partitions)) [
        | inl e ↦ ground (arith, e)
        | inr (p, e) ↦ ground (arith, e)
      ]
  partitions-conclude b (answered r) c = elim (Option-cases (validate_against r (ids_of b.items))) [
    | inl v ↦ elim (Option-cases (find_partition b.partition c.partitions)) [
      | inl e ↦ rw (v, distribute) (ground (arith, e))
      | inr (p, e) ↦ rw (v, distribute) (ground (arith, e))
    ]
    | inr (x, v) ↦ elim (Option-cases (find_partition b.partition c.partitions)) [
      | inl e ↦ rw (v, distribute) (ground (arith, e))
      | inr (p, e) ↦ rw (v, distribute) (ground (arith, e))
    ]
  ]

  -- The end of a batch takes its items off the count of live items, and takes nobody off the count
  -- of waiters. If the partition of the batch is known and has more live items than the batch, it
  -- is there after the batch has ended, however it ended, with as many waiters as before, though
  -- all the waiters of the batch have been answered.
  pub waiters-conclude :
      (b : Inflight K) (d : Completion V E) (c : Coordinator K V E) {p : Partition K}
      → find_partition b.partition c.partitions ≡ some p
      → length b.items < p.live
      → find_partition b.partition (conclude b d c).partitions
        ≡ some (record p { live = p.live - length b.items })
  unfolding leave_partition write_back maybe_retire emit
  waiters-conclude b d c {p} e more =
      let q = record p { live = p.live - length b.items } in
      rw
        (
          partitions-conclude b d c,
          e,
          leave_partition,
          partitions-write_back q c (omega (arith, more)),
        )
        (find_partition-put_named b.partition q c.partitions
          (part-find_partition b.partition c.partitions e))

-- A batch of one item with two callers, who both waited for it when it was launched.
module _ {K : Type 0} where
  abbrev pub shared_batch : Inflight K → Item K → Waiter → Waiter → Inflight K
  shared_batch b it w v = record b {
    items = record it { waiters = w ∷ v ∷ []; active_waiters = 2 } ∷ [];
    active_waiters = pos 2;
  }

  -- The batch when nobody waits for it any more, with what its own count says.
  abbrev pub deserted_batch : Inflight K → Item K → Waiter → Waiter → Inflight K
  deserted_batch b it w v = record b {
    items =
        record it {
          waiters = record w { active = false } ∷ record v { active = false } ∷ [];
          active_waiters = 0;
        }
        ∷ [];
    active_waiters = pos 1;
  }

  -- When both callers of a batch of one item cancel, one after the other, and both were counted in
  -- the batch at its launch, neither cancellation cancels the provider call of the batch: its own
  -- count of waiters, which was two, is lowered once.
  pub cancel_in_batches_shared :
      (b : Inflight K) (it : Item K) (w v : Waiter) (bs : List (Inflight K))
      → w.active ≡ true
      → v.active ≡ true
      → w.id ≢ v.id
      → (b' : Inflight K) × (cancel_in_batches b.partition w.id (shared_batch b it w v ∷ bs)
          ≡ some (b' ∷ bs, none))
        × (cancel_in_batches b.partition v.id (b' ∷ bs) ≡ some (deserted_batch b it w v ∷ bs, none))
  unfolding cancel_in_batches cancel_in cancel_item cancel_waiter leave_batch
  cancel_in_batches_shared b it w v bs h k n =
      let first : Item K = record it {
        waiters = record w { active = false } ∷ v ∷ [];
        active_waiters = 1;
      } in
      let differ : (w.id == v.id) ≡ false = ground (arith, n) in
      (
        record b { items = first ∷ []; active_waiters = pos 2 },
        rw (bytes_eq_refl b.partition, ==_refl w.id, h, cancel_in_batches) refl,
        rw (bytes_eq_refl b.partition, differ, ==_refl v.id, k, cancel_in_batches) refl,
      )

  unfoldable pub IsOversize : BatchLimits → List (Item K) → Type 0
  IsOversize l its = All (λ it. (it.active_waiters ≢ 0) × (item_too_large l it ≡ true)) its

  select-IsOversize :
      (l : BatchLimits) (its : List (Item K))
      → IsOversize l its
      → (select l 0 0 0 its
          ≡ record { selected = []; remaining = []; too_large = its; dropped = [] })
  unfolding select IsOversize
  select-IsOversize l [] h = refl
  select-IsOversize l (it ∷ its) h = rw (h.0.1) (ground (arith, h.0.0, select-IsOversize l its h.1))

module _ {K V E : Type 0} where
  -- If every pending item of a partition is waited for and is too large for a batch, dispatching
  -- the partition leaves nothing pending in it, and charges it with as many bytes and as much
  -- weight as before.
  pub dispatch_batch-IsOversize :
      (p : Partition K) (r : FlushReason) (c : Coordinator K V E)
      → IsOversize (limits c) p.pending
      → let q = (dispatch_batch p r c).0 in
        (q.pending ≡ []) × (q.bytes ≡ p.bytes) × (q.weight ≡ p.weight)
  unfolding dispatch_batch dispatch_selection after_walk
  dispatch_batch-IsOversize p r c h =
      rw (select-IsOversize (limits c) p.pending h) (refl, refl, refl)
