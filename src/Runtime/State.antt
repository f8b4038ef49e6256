-- ===== src/Runtime/State.antt =====
-- runtime/coordinator.go: the state that one coordinator goroutine owns.
--
-- Go keeps each queued item behind a pointer, reached from `partition.pending`, from the index
-- `partition.active` and, once dispatched, from the batch's `items`. Here an item has one owner:
-- the pending list of its partition or, once dispatched, its batch; and the index is computed,
-- `active_items`. Where an item stands says what `dispatched` and `batchID` say in Go. Items,
-- waiters and batches are identified by their numbers, as pointers are in Go. What the coordinator
-- sends (replies, results, cancellations, provider calls) and what it adds to the atomic
-- statistics is a log. Times are nanoseconds. A sum of weights or of bytes, an int64, is kept as its
-- two's complement.
use batch_weaver.Base.{
  ℕ, ◌+◌, ◌-◌, ◌<◌, ◌≡◌, ◌%◌, ◌^◌, arith, Bool, not, ◌&&◌, List, [], ◌∷◌, ◌++◌, Option, none, some,
  ℤ, Bytes, bytes_eq, bytes_lt, ◌==◌, ltb, leb, any, is_empty, map, if◌then◌else◌,
}
use batch_weaver.Message.Request.{BatchRequest, RequestError}
use batch_weaver.Message.Response.{BatchResponse, ResponseError}
use batch_weaver.Runtime.Policy.{Config, DynamicSettings, FlushReason}

-- The dimension of a limit that a submission would pass.
pub data Category : Type 0 where
  items waiters bytes weight partitions : Category

-- `E` stands for the errors of a provider.
pub data CallError (E : Type 0) : Type 0 where
  engine_closing engine_closed fallback_sentinel item_too_large flush_timeout drain_timeout :
      CallError E
  partition_limit : ℕ → CallError E
  queue_full : Category → CallError E
  contract_request : RequestError → CallError E
  contract_response : ResponseError → CallError E
  provider_panic : Bytes → CallError E
  external : E → CallError E

-- `result`
pub record CallResult (V E : Type 0) : Type 0 where
  pub value : Option V
  pub error : Option (CallError E)
  pub found : Bool

-- `waiter`; its channel is named by its identifier.
pub record Waiter : Type 0 where
  pub id : ℕ
  pub active : Bool
  pub deadline : Option ℕ

-- `qitem`
pub record Item (K : Type 0) : Type 0 where
  pub id : ℕ
  pub seq : ℕ
  pub key : K
  pub hash : ℕ
  pub weight : ℕ
  pub bytes : ℕ
  pub enqueue : ℕ
  pub waiters : List Waiter
  pub active_waiters : ℕ

-- `partitionState`, named by the encoded form of its partition.
pub record Partition (K : Type 0) : Type 0 where
  pub part : Bytes
  pub pending : List (Item K)
  pub bytes : ℕ
  pub weight : ℕ
  pub waiters : ℕ
  pub live : ℕ

-- `batchInflight`. Its count of waiters can pass below zero.
pub record Inflight (K : Type 0) : Type 0 where
  pub id : ℕ
  pub items : List (Item K)
  pub active_waiters : ℤ
  pub partition : Bytes
  pub min_seq : ℕ

pub record SubmitReq (K : Type 0) : Type 0 where
  pub part : Bytes
  pub key : K
  pub hash : ℕ
  pub weight : ℕ
  pub bytes : ℕ
  pub waiter : Waiter
  -- How many numbers of the engine its other operations and waiters take before this request does.
  pub taken : ℕ

pub record CancelReq : Type 0 where
  pub part : Bytes
  pub waiter_id : ℕ
  pub blocked : Bool

pub data Completion (V E : Type 0) : Type 0 where
  panicked : Bytes → Completion V E
  failed : E → Completion V E
  answered : BatchResponse V E → Completion V E

pub record CompleteReq (V E : Type 0) : Type 0 where
  pub batch_id : ℕ
  pub completion : Completion V E

pub data ControlKind : Type 0 where
  flush drain close : ControlKind

-- `controlReq` and the `barrier` that records it; its reply channel and its context are named by
-- its identifier.
pub record ControlReq : Type 0 where
  pub id : ℕ
  pub kind : ControlKind

pub record Barrier : Type 0 where
  pub id : ℕ
  pub kind : ControlKind
  pub seq : ℕ
  pub dispatch_only : Bool

-- The atomic counters of runtime/statistics.go.
pub data Counter : Type 0 where
  active_partitions queued_items queued_waiters active_provider_calls : Counter
  in_flight_joins provider_errors item_errors queue_rejections : Counter
  total_requests total_provider_calls total_backend_items total_calls_saved : Counter
  total_cancellations total_contract_violations : Counter

pub data Effect (K V E : Type 0) : Type 0 where
  replied : ℕ → Option (CallError E) → Effect K V E
  delivered : ℕ → CallResult V E → Effect K V E
  canceled : ℕ → Effect K V E
  started : ℕ → Option ℕ → BatchRequest K → Effect K V E
  released : ℕ → Option (CallError E) → Effect K V E
  added subtracted stored : Counter → ℕ → Effect K V E
  recorded : ℕ → FlushReason → Effect K V E

pub record Coordinator (K V E : Type 0) : Type 0 where
  pub config : Config K
  pub partitions : List (Partition K)
  pub inflight : List (Inflight K)
  pub blocked : List (SubmitReq K)
  pub timer : Option ℕ
  pub active_provider : ℕ
  pub batch_seq : ℕ
  pub submit_seq : ℕ
  pub request_seq : ℕ
  pub closing : Bool
  pub barriers : List Barrier
  pub dyn : Option DynamicSettings
  pub log : List (Effect K V E)

-- uint64 counters wrap.
abbrev pub u64 : ℕ → ℕ
u64 n = n % 2 ^ 64

-- int64 sums, which wrap, and their comparisons with a limit, which is not negative: a sum from `2 ^ 63`
-- on is a negative number.
unfoldable pub add_i64 : ℕ → ℕ → ℕ
add_i64 a b = (a + b) % 2 ^ 64

unfoldable pub sub_i64 : ℕ → ℕ → ℕ
sub_i64 a b = (a + (2 ^ 64 - b % 2 ^ 64)) % 2 ^ 64

abbrev pub is_above : ℕ → ℕ → Bool
is_above limit n = ltb limit n && ltb n (2 ^ 63)

abbrev pub is_reached : ℕ → ℕ → Bool
is_reached limit n = leb limit n && ltb n (2 ^ 63)

pub add_i64_small : (a b : ℕ) → a + b < 2 ^ 63 → add_i64 a b ≡ a + b
unfolding add_i64
add_i64_small a b h = omega (arith, h)

-- `engine.nextRequestID`: never zero.
unfoldable pub next_request_id : ℕ → ℕ
next_request_id n = let id = u64 (n + 1) in if id == 0 then 1 else id

module _ {K V E : Type 0} where
  unfoldable pub emit : List (Effect K V E) → Coordinator K V E → Coordinator K V E
  emit es c = record c { log = c.log ++ es }

-- The map `partitions`, and the index `active` of one partition.
module _ {K : Type 0} where
  unfoldable pub find_partition : Bytes → List (Partition K) → Option (Partition K)
  find_partition k [] = none
  find_partition k (p ∷ ps) = if bytes_eq p.part k then some p else find_partition k ps

  unfoldable pub put_partition : Partition K → List (Partition K) → List (Partition K)
  put_partition q [] = q ∷ []
  put_partition q (p ∷ ps) = if bytes_eq p.part q.part then q ∷ ps else p ∷ put_partition q ps

  unfoldable pub delete_partition : Bytes → List (Partition K) → List (Partition K)
  delete_partition k [] = []
  delete_partition k (p ∷ ps) = if bytes_eq p.part k then ps else p ∷ delete_partition k ps

  unfoldable pub flying : Bytes → List (Inflight K) → List (Item K)
  flying k [] = []
  flying k (b ∷ bs) = if bytes_eq b.partition k then b.items ++ flying k bs else flying k bs

  unfoldable pub active_items : Partition K → List (Inflight K) → List (Item K)
  unfolding flying
  active_items p bs = flying p.part bs ++ p.pending

-- `partitionKeys`: sorted.
insert_key : Bytes → List Bytes → List Bytes
insert_key k [] = k ∷ []
insert_key k (j ∷ js) = if bytes_lt j k then j ∷ insert_key k js else k ∷ j ∷ js

sort_keys : List Bytes → List Bytes
unfolding insert_key
sort_keys [] = []
sort_keys (k ∷ ks) = insert_key k (sort_keys ks)

unfoldable pub partition_keys : {K : Type 0} → List (Partition K) → List Bytes
unfolding sort_keys
partition_keys ps = sort_keys (map (λ p. p.part) ps)

-- `drained`
module _ {K V E : Type 0} where
  unfoldable pub drained : Coordinator K V E → Bool
  drained c =
      is_empty c.inflight && c.active_provider == 0 && not (any (λ p. ltb 0 p.live) c.partitions)
