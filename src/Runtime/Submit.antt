-- ===== src/Runtime/Submit.antt =====
-- runtime/coordinator_handlers.go: `handleSubmit` and what it calls.
pub mod Limits
pub mod Replies
use mathlib.Core.Option
use batch_weaver.Base.{
  ℕ, suc, ◌+◌, Bool, true, false, ◌&&◌, List, [], ◌∷◌, ◌++◌, Option, none, some, Bytes, bytes_eq,
  ◌==◌, leb, ltb, length, if◌then◌else◌,
}
use batch_weaver.Runtime.Policy.{Config, QueueLimits, OverflowPolicy, reject, fallback, block}
use batch_weaver.Runtime.State.{
  Category, CallError, Waiter, Item, Partition, Inflight, SubmitReq, Counter, Effect, Coordinator,
  u64, add_i64, is_above, emit, next_request_id, find_partition, put_partition, fallback_sentinel,
  partition_limit, queue_full, engine_closing, replied, added, stored,
}
use batch_weaver.Runtime.State.{
  active_partitions, queued_items, queued_waiters, in_flight_joins, queue_rejections,
  total_requests, total_calls_saved,
}

module _ {K : Type 0} where
  -- `overLimits`
  unfoldable pub over_limits : QueueLimits → Partition K → SubmitReq K → Option Category
  unfolding add_i64
  over_limits l p req =
      if ltb 0 l.max_items && ltb l.max_items (length p.pending + 1)
      then some Category.items
      else if ltb 0 l.max_waiters && ltb l.max_waiters (p.waiters + 1)
      then some Category.waiters
      else if ltb 0 l.max_bytes && is_above l.max_bytes (add_i64 p.bytes req.bytes)
      then some Category.bytes
      else if ltb 0 l.max_weight && is_above l.max_weight (add_i64 p.weight req.weight)
      then some Category.weight
      else none

  -- The same bucket and an equal key.
  unfoldable pub same_key : (K → K → Bool) → SubmitReq K → Item K → Bool
  same_key equal req it = it.hash == req.hash && equal it.key req.key

  unfoldable pub add_waiter : Waiter → Item K → Item K
  add_waiter w it = record it {
    waiters = it.waiters ++ w ∷ [];
    active_waiters = it.active_waiters + 1;
  }

  -- The walk over `p.active[req.hash]`: one more waiter on the item with an equal key.
  unfoldable pub join_items : (K → K → Bool) → SubmitReq K → List (Item K) → Option (List (Item K))
  unfolding same_key add_waiter
  join_items equal req [] = none
  join_items equal req (it ∷ its) =
      if same_key equal req it
      then some (add_waiter req.waiter it ∷ its)
      else Option.map (λ rest. it ∷ rest) (join_items equal req its)

  unfoldable pub join_batches :
      (K → K → Bool) → SubmitReq K → List (Inflight K) → Option (List (Inflight K))
  unfolding join_items
  join_batches equal req [] = none
  join_batches equal req (b ∷ bs) =
      elim (if bytes_eq b.partition req.part then join_items equal req b.items else none) [
        | some its ↦ some (record b { items = its } ∷ bs)
        | none ↦ Option.map (λ rest. b ∷ rest) (join_batches equal req bs)
      ]

  unfoldable pub new_item : ℕ → ℕ → ℕ → SubmitReq K → Item K
  new_item id seq now req = record {
    id = id;
    seq = seq;
    key = req.key;
    hash = req.hash;
    weight = req.weight;
    bytes = req.bytes;
    enqueue = now;
    waiters = req.waiter ∷ [];
    active_waiters = 1;
  }

  unfoldable pub push_item : Item K → Partition K → Partition K
  unfolding add_i64
  push_item it p = record p {
    pending = p.pending ++ it ∷ [];
    bytes = add_i64 p.bytes it.bytes;
    weight = add_i64 p.weight it.weight;
    waiters = p.waiters + 1;
    live = p.live + 1;
  }

  unfoldable pub new_partition : Bytes → Partition K
  new_partition k = record { part = k; pending = []; bytes = 0; weight = 0; waiters = 0; live = 0 }

module _ {K V E : Type 0} where
  unfoldable pub reply : SubmitReq K → Option (CallError E) → Effect K V E
  reply req e = replied req.waiter.id e

  -- `overflow`
  unfoldable pub overflow : SubmitReq K → Category → Bool → Coordinator K V E → Coordinator K V E
  unfolding emit reply
  overflow req category partition c = elim c.config.policy [
    | fallback ↦ emit (reply req (some fallback_sentinel) ∷ []) c
    | block ↦ record c { blocked = c.blocked ++ req ∷ [] }
    | reject ↦
        emit
          (added queue_rejections 1
            ∷ reply req (
                some (
                  if partition
                  then partition_limit c.config.limits.max_partitions
                  else queue_full category))
            ∷ [])
          c
  ]

  -- The statistics and the reply of a submission that joined an item.
  unfoldable pub joined : SubmitReq K → Partition K → Coordinator K V E → Coordinator K V E
  unfolding emit reply
  joined req p c =
      emit
        (added queued_waiters 1
          ∷ added in_flight_joins 1
          ∷ added total_calls_saved 1
          ∷ added total_requests 1
          ∷ reply req none
          ∷ [])
        (record c {
          partitions = put_partition (record p { waiters = p.waiters + 1 }) c.partitions;
        })

  -- The deduplication of a submission: `none` if no live item of the partition has its key.
  unfoldable pub join_request :
      Partition K → SubmitReq K → Coordinator K V E → Option (Coordinator K V E)
  join_request p req c = elim (join_batches c.config.equal req c.inflight) [
    | some bs ↦ some (joined req p (record c { inflight = bs }))
    | none ↦
        Option.map (λ its. joined req (record p { pending = its }) c)
          (join_items c.config.equal req p.pending)
  ]

  -- A new unique item, within the limits.
  unfoldable pub enqueue : ℕ → Partition K → SubmitReq K → Coordinator K V E → Coordinator K V E
  unfolding emit reply new_item push_item next_request_id
  enqueue now p req c =
      let id = next_request_id (u64 (c.request_seq + req.taken)) in
      let seq = u64 (c.submit_seq + 1) in
      emit
        (added queued_items 1
          ∷ added queued_waiters 1
          ∷ added total_requests 1
          ∷ reply req none
          ∷ [])
        (record c {
          request_seq = id;
          submit_seq = seq;
          partitions = put_partition (push_item (new_item id seq now req) p) c.partitions;
        })

  unfoldable pub admit : ℕ → Partition K → SubmitReq K → Coordinator K V E → Coordinator K V E
  admit now p req c = elim (if c.config.dedup_enabled then join_request p req c else none) [
    | some c' ↦ c'
    | none ↦ elim (over_limits c.config.limits p req) [
      | some category ↦ overflow req category false c
      | none ↦ enqueue now p req c
    ]
  ]

  -- The partition of a submission, made if it is not there and the limit allows one more.
  unfoldable pub handle_submit : ℕ → SubmitReq K → Coordinator K V E → Coordinator K V E
  unfolding emit reply
  handle_submit now req c =
      if c.closing
      then emit (added queue_rejections 1 ∷ reply req (some engine_closing) ∷ []) c
      else elim (find_partition req.part c.partitions) [
        | some p ↦ admit now p req c
        | none ↦
            if ltb 0 c.config.limits.max_partitions
              && leb c.config.limits.max_partitions (length c.partitions)
            then overflow req Category.partitions true c
            else (let p = new_partition req.part in
                admit now p req (
                  emit (stored active_partitions (length c.partitions + 1) ∷ [])
                    (record c { partitions = c.partitions ++ p ∷ [] })))
      ]

  -- `retryBlocked`
  unfoldable pub retry_all : ℕ → List (SubmitReq K) → Coordinator K V E → Coordinator K V E
  retry_all now [] c = c
  retry_all now (req ∷ reqs) c = retry_all now reqs (handle_submit now req c)

  unfoldable pub retry_blocked : ℕ → Coordinator K V E → Coordinator K V E
  retry_blocked now c = retry_all now c.blocked (record c { blocked = [] })
