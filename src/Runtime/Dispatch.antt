-- ===== src/Runtime/Dispatch.antt =====
-- runtime/coordinator_dispatch.go: `schedule`, `shouldDispatch`, `dispatchBatch` and
-- `computeNextTimer`.
use batch_weaver.Base.{
  ℕ, suc, ◌+◌, ◌-◌, ◌^◌, Bool, true, false, ◌&&◌, List, [], ◌∷◌, ◌++◌, Option, none, some, pos, ok,
  err, ◌==◌, ltb, leb, length, sum_of, is_empty, if◌then◌else◌,
}
use batch_weaver.Message.{BatchItem, new_batch_item, with_weight, with_deadline}
use batch_weaver.Message.Request.{BatchRequest, new_batch_request}
use batch_weaver.Runtime.Policy.{
  Config, FlushReason, immediate, fixed_window, deadline_aware, manually, effective_max_wait,
  effective_max_batch_size,
}
use batch_weaver.Runtime.State.{
  CallError, CallResult, Waiter, Item, Partition, Inflight, Effect, Coordinator, u64, sub_i64,
  is_reached, emit, put_partition, item_too_large, contract_request, added, subtracted, stored,
  delivered, started, recorded, queued_items, queued_waiters, active_provider_calls,
  total_provider_calls, total_backend_items,
}
use batch_weaver.Runtime.Cancel.{remove_pending_item}
use batch_weaver.Runtime.Select.{
  BatchLimits, Selection, select, earliest_waiter, earliest_deadline, batch_deadline,
}

-- `clampWeight`, where an int has 64 bits.
unfoldable pub clamp_weight : ℕ → ℕ
clamp_weight w = if ltb w 1 then 1 else if ltb (2 ^ 63 - 1) w then 2 ^ 63 - 1 else w

module _ {K : Type 0} where
  -- An item as the provider sees it.
  unfoldable pub batch_item : Item K → BatchItem K
  unfolding clamp_weight new_batch_item with_weight with_deadline earliest_waiter
  batch_item it =
      let bi = with_weight (new_batch_item it.id it.key) (pos (clamp_weight it.weight)) in
      elim (earliest_waiter it.waiters) [ none ↦ bi | some t ↦ with_deadline bi t ]

  abbrev pub batch_items : List (Item K) → List (BatchItem K)
  batch_items [] = []
  batch_items (it ∷ its) = batch_item it ∷ batch_items its

  -- The least sequence number, from `^uint64(0)`.
  unfoldable pub min_seq : List (Item K) → ℕ
  min_seq [] = 2 ^ 64 - 1
  min_seq (it ∷ its) = let m = min_seq its in if ltb it.seq m then it.seq else m

  abbrev pub waiters_of : List (Item K) → ℕ
  waiters_of = sum_of (λ it. it.active_waiters)

  -- `prune`: leading items that nobody waits for.
  unfoldable pub prune : List (Item K) → Partition K → Partition K
  unfolding remove_pending_item
  prune [] p = p
  prune (it ∷ its) p = elim (it.active_waiters == 0) [
    | true ↦ prune its (remove_pending_item it p)
    | false ↦ p
  ]

  unfoldable pub count_pruned : List (Item K) → ℕ
  count_pruned [] = 0
  count_pruned (it ∷ its) = let n = count_pruned its in if it.active_waiters == 0 then suc n else 0

  -- Has the first pending item waited for the whole window?
  unfoldable pub window_over : ℕ → ℕ → Item K → Bool
  window_over wait now it = ltb 0 wait && leb (it.enqueue + wait) now

  unfoldable pub deadline_near : ℕ → ℕ → List (Item K) → Bool
  unfolding earliest_deadline
  deadline_near margin now its = elim (earliest_deadline its) [
    | none ↦ false
    | some t ↦ leb t (now + margin)
  ]

  -- The time-based part of `shouldDispatch`, with the first pending item.
  unfoldable pub time_trigger : Config K → ℕ → ℕ → Item K → List (Item K) → Option FlushReason
  unfolding window_over deadline_near
  time_trigger cfg wait now it its = elim cfg.flush_mode [
    | immediate ↦ some FlushReason.wait
    | manually ↦ none
    | fixed_window ↦ if window_over wait now it then some FlushReason.wait else none
    | deadline_aware ↦
        if window_over wait now it
        then some FlushReason.wait
        else if deadline_near cfg.deadline_margin now (it ∷ its)
        then some FlushReason.deadline
        else none
  ]

module _ {K : Type 0} where
  -- The partition after the walk: an item that failed or was dropped leaves its bytes and its
  -- weight behind.
  unfoldable pub after_walk : Selection K → Partition K → Partition K
  after_walk s p = record p {
    pending = s.remaining;
    live = p.live - length s.too_large - length s.dropped;
  }

  -- The selected items leave, as a batch in flight.
  unfoldable pub take_off : Selection K → Partition K → Partition K
  unfolding after_walk sub_i64
  take_off s p = record (after_walk s p) {
    bytes = sub_i64 p.bytes (sum_of (λ it. it.bytes) s.selected);
    weight = sub_i64 p.weight (sum_of (λ it. it.weight) s.selected);
  }

abbrev pub error_result : {V E : Type 0} → CallError E → CallResult V E
error_result e = record { value = none; error = some e; found = false }

module _ {K V E : Type 0} where
  abbrev pub max_size : Coordinator K V E → ℕ
  max_size c = effective_max_batch_size c.config c.dyn

  unfoldable pub should_dispatch_from :
      List (Item K) → Partition K → Bool → ℕ → Coordinator K V E → Option FlushReason
  unfolding time_trigger effective_max_batch_size effective_max_wait
  should_dispatch_from [] p force now c = none
  should_dispatch_from (it ∷ its) p force now c =
      if force
      then some FlushReason.manual
      else if leb (max_size c) (length (it ∷ its))
      then some FlushReason.size
      else if ltb 0 c.config.max_batch_weight && is_reached c.config.max_batch_weight p.weight
      then some FlushReason.weight
      else if ltb 0 c.config.max_batch_bytes && is_reached c.config.max_batch_bytes p.bytes
      then some FlushReason.bytes
      else time_trigger c.config (effective_max_wait c.config c.dyn) now it its

  unfoldable pub should_dispatch : Partition K → Bool → ℕ → Coordinator K V E → Option FlushReason
  should_dispatch p force now c = should_dispatch_from p.pending p force now c

  -- `deliver`: a result for a waiter that is still active.
  unfoldable pub deliver : CallResult V E → List Waiter → List (Effect K V E)
  deliver r [] = []
  deliver r (w ∷ ws) =
      if w.active
      then delivered w.id r ∷ subtracted queued_waiters 1 ∷ deliver r ws
      else deliver r ws

  -- `failItem` for each of some pending items.
  unfoldable pub fail_items : CallError E → List (Item K) → List (Effect K V E)
  unfolding deliver
  fail_items e [] = []
  fail_items e (it ∷ its) =
      deliver (error_result e) it.waiters ++ subtracted queued_items 1 ∷ fail_items e its

  abbrev pub limits : Coordinator K V E → BatchLimits
  limits c = record {
    size = max_size c;
    weight = c.config.max_batch_weight;
    bytes = c.config.max_batch_bytes;
  }

  -- The provider call of a selection that makes a valid request.
  unfoldable pub launch :
      Selection K
      → Partition K
      → FlushReason
      → BatchRequest K
      → Coordinator K V E
      → Partition K × Coordinator K V E
  unfolding emit
  launch s p reason req c =
      let q = take_off s p in
      let id = u64 (c.batch_seq + 1) in
      let n = length s.selected in
      let calls = c.active_provider + 1 in
      let b : Inflight K = record {
        id = id;
        items = s.selected;
        active_waiters = pos (waiters_of s.selected);
        partition = p.part;
        min_seq = min_seq s.selected;
      } in
      (
        q,
        emit
            (subtracted queued_items n
              ∷ stored active_provider_calls calls
              ∷ added total_provider_calls 1
              ∷ added total_backend_items n
              ∷ recorded n reason
              ∷ started id (batch_deadline s.selected) req
              ∷ [])
            (record c {
              partitions = put_partition q c.partitions;
              inflight = c.inflight ++ b ∷ [];
              batch_seq = id;
              active_provider = calls;
            }),
      )

  -- The items that the walk failed or dropped are settled.
  unfoldable pub settle : Selection K → Partition K → Coordinator K V E → Coordinator K V E
  unfolding emit
  settle s p c =
      emit (subtracted queued_items (length s.dropped) ∷ fail_items item_too_large s.too_large)
        (record c { partitions = put_partition (after_walk s p) c.partitions })

  unfoldable pub dispatch_selection :
      Selection K → Partition K → FlushReason → Coordinator K V E → Partition K × Coordinator K V E
  unfolding emit
  dispatch_selection s p reason c =
      if is_empty s.selected
      then (after_walk s p, c)
      else elim (new_batch_request (batch_items s.selected)) [
        | ok req ↦ launch s p reason req c
        | err e ↦
            let q = record (after_walk s p) {
              live = p.live - length s.too_large - length s.dropped - length s.selected;
            } in
            (
              q,
              emit (fail_items (contract_request e) s.selected)
                  (record c { partitions = put_partition q c.partitions }),
            )
      ]

  -- `dispatchBatch`: the partition and the coordinator after it.
  unfoldable pub dispatch_batch :
      Partition K → FlushReason → Coordinator K V E → Partition K × Coordinator K V E
  dispatch_batch p reason c =
      let s = select (limits c) 0 0 0 p.pending in dispatch_selection s p reason (settle s p c)
