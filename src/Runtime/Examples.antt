-- ===== src/Runtime/Examples.antt =====
-- Concrete coordinators, batches, tables and partitions.
mod Accounts
mod Memory
mod Bindings
use mathlib.Core.List.{Perm}
use mathlib.Core.Option
use batch_weaver.Base.{
  ℕ, suc, zero, ◌+◌, ◌-◌, ◌<◌, ◌≤◌, ◌^◌, ◌≡◌, ◌≢◌, refl, ◌↔◌, ◌⊎◌, Bool, true, false, List, [], ◌∷◌,
  ◌++◌, Option, none, some, Result, ok, err, All, IsUnder, Bytes, pos, negsuc, arith, length, ◌==◌,
  ◌||◌,
}
use batch_weaver.Message.Response.{BatchResponse, Outcome}
use batch_weaver.Runtime.Policy.{
  Config, QueueLimits, AdaptiveSettings, FlushReason, FlushMode, OverflowPolicy, reject,
  fixed_window, merge, apply_adaptive_settings,
}
use batch_weaver.Runtime.Policy.Bounds.{
  unlimited, merge_monoid, apply_adaptive_settings_bounds, apply_adaptive_settings-wait_unbounded,
}
use batch_weaver.Runtime.State.{
  add_i64, Waiter, Item, Partition, Inflight, SubmitReq, Completion, Coordinator, CallResult,
  CallError, find_partition, failed, answered, external,
}
use batch_weaver.Runtime.Submit.{join_batches, join_items, same_key, add_waiter, handle_submit}
use batch_weaver.Runtime.Submit.Limits.{AllWithin, IsWithin, handle_submit-AllWithin}
use batch_weaver.Runtime.Submit.Replies.{IsSettled, handle_submit-IsSettled}
use batch_weaver.Runtime.Cancel.{cancel_in_batches}
use batch_weaver.Runtime.Select.{BatchLimits, Selection, select, item_too_large, fits}
use batch_weaver.Runtime.Select.Bounds.{
  IsCapped, weights_of, loads_of, select_bounds, select-perm, select-cons_head, select-All_active,
}
use batch_weaver.Runtime.Dispatch.{should_dispatch, dispatch_batch, limits}
use batch_weaver.Runtime.Schedule.{can_dispatch, dispatch_loop, max_calls}
use batch_weaver.Runtime.Complete.{conclude}
use batch_weaver.Runtime.Loop.{Event, submitted, new_coordinator, round}
use batch_weaver.Runtime.Bounded.{IsBounded}
use batch_weaver.Runtime.Bounded.Reach.{Reach, bound, stepped, tuned, Reach-IsBounded}
use batch_weaver.Runtime.Drained.{dispatch_loop_exhausts, dispatch_loop_forced}
use batch_weaver.Runtime.Delivery.{deliveries, answers, verdict, deliveries-conclude}
use batch_weaver.Runtime.Leaks.{
  shared_batch, deserted_batch, IsOversize, waiters-conclude, cancel_in_batches_shared,
  dispatch_batch-IsOversize,
}

abbrev config : Config ℕ
config = record {
  equal = λ a b. a == b;
  limits = record {
    max_items = 4;
    max_waiters = 1;
    max_bytes = 64;
    max_weight = 0;
    max_partitions = 2;
  };
  policy = reject;
  flush_mode = fixed_window;
  max_batch_size = 2;
  max_batch_weight = 5;
  max_batch_bytes = 10;
  max_wait = 7;
  deadline_margin = 0;
  max_concurrency = 1;
  dedup_enabled = true;
}

abbrev waiter : ℕ → Waiter
waiter n = record { id = n; active = true; deadline = none }

abbrev item : ℕ → ℕ → Item ℕ
item n size = record {
  id = n;
  seq = n;
  key = n;
  hash = n;
  weight = 1;
  bytes = size;
  enqueue = 0;
  waiters = waiter n ∷ [];
  active_waiters = 1;
}

-- The second item does not fit beside the first, and the last is too large for any batch.
abbrev items : List (Item ℕ)
items = item 1 6 ∷ item 2 6 ∷ item 3 3 ∷ item 4 11 ∷ []

abbrev batch_limits : BatchLimits
batch_limits = record { size = 2; weight = 5; bytes = 10 }

abbrev request : ℕ → SubmitReq ℕ
request n = record {
  part = 7 ∷ [];
  key = 1;
  hash = 1;
  weight = 1;
  bytes = 6;
  waiter = waiter n;
  taken = 0;
}

abbrev fresh : Coordinator ℕ ℕ ℕ
fresh = new_coordinator config

abbrev partition : Partition ℕ
partition = record {
  part = 7 ∷ [];
  pending = item 2 6 ∷ [];
  bytes = 6;
  weight = 1;
  waiters = 2;
  live = 2;
}

abbrev batch : Inflight ℕ
batch = record {
  id = 1;
  items = item 1 6 ∷ [];
  active_waiters = pos 1;
  partition = 7 ∷ [];
  min_seq = 1;
}

-- One batch in flight and one item pending.
abbrev busy : Coordinator ℕ ℕ ℕ
busy = record {
  config = config;
  partitions = partition ∷ [];
  inflight = batch ∷ [];
  blocked = [];
  timer = none;
  active_provider = 1;
  batch_seq = 1;
  submit_seq = 2;
  request_seq = 2;
  closing = false;
  barriers = [];
  dyn = none;
  log = [];
}

abbrev answer : BatchResponse ℕ ℕ
answer = record {
  outcomes = record { request_id = 1; value = some 50; error = none; found = true } ∷ [];
}

deliveries-conclude_example :
    deliveries (conclude batch (answered answer) busy).log
    ≡ deliveries {K = ℕ} {V = ℕ} {E = ℕ} [] ++ answers (verdict batch (answered answer)) batch.items
deliveries-conclude_example = deliveries-conclude batch (answered answer) busy

dispatch_loop_exhausts_example :
    let (q, d) = dispatch_loop 1 false 9 partition busy in
    (can_dispatch q d ≡ false) ⊎ (should_dispatch q false 9 d ≡ none)
dispatch_loop_exhausts_example = dispatch_loop_exhausts 1 false 9 partition busy (omega arith)

dispatch_loop_forced_example :
    let (q, d) = dispatch_loop 1 true 9 partition busy in
    (q.pending ≡ []) ⊎ (max_calls d ≤ d.active_provider)
dispatch_loop_forced_example = dispatch_loop_forced 9 partition busy

busy-AllWithin : AllWithin busy
busy-AllWithin = ground arith

handle_submit-AllWithin_example : AllWithin (handle_submit 9 (request 3) busy)
handle_submit-AllWithin_example =
    handle_submit-AllWithin 9 (request 3) busy busy-AllWithin (omega arith, omega arith)

selected_items : select batch_limits 0 0 0 items ≡ record {
  selected = item 1 6 ∷ item 3 3 ∷ [];
  remaining = item 2 6 ∷ item 4 11 ∷ [];
  too_large = [];
  dropped = [];
}
unfolding select item_too_large fits
selected_items = refl

-- The sum of the weights wraps: the second item is taken beside the first.
abbrev heavy_item : ℕ → Item ℕ
heavy_item n = record (item 2 3) { weight = n }

heavy_batch :
    (select batch_limits 0 0 0 (item 1 6 ∷ heavy_item (2 ^ 63 - 1) ∷ [])).selected
    ≡ item 1 6 ∷ heavy_item (2 ^ 63 - 1) ∷ []
unfolding select item_too_large fits add_i64
heavy_batch = refl

select_bounds_example :
    let batch = (select batch_limits 0 0 0 items).selected in
    (length batch ≤ 2) × IsCapped 5 (weights_of batch) × IsCapped 10 (loads_of batch)
select_bounds_example = select_bounds batch_limits items (omega arith)

select-perm_example :
    let s = select batch_limits 0 0 0 items in
    Perm items (s.selected ++ s.remaining ++ s.too_large ++ s.dropped)
select-perm_example = select-perm batch_limits 0 0 0 items

first_fits : item_too_large batch_limits (item 1 6) ≡ false
unfolding item_too_large
first_fits = refl

abbrev hasty : AdaptiveSettings
hasty = record { max_wait = negsuc 3; max_batch_size = pos 90; max_concurrency = pos 3 }

apply_adaptive_settings-wait_unbounded_example :
    (apply_adaptive_settings
      (record config { max_wait = 0 })
      (record hasty { max_wait = pos 600 })).max_wait
    ≡ 600
apply_adaptive_settings-wait_unbounded_example =
    apply_adaptive_settings-wait_unbounded (record config { max_wait = 0 })
      (record hasty { max_wait = pos 600 }) 600 refl (omega arith) refl

handle_submit-IsSettled_example : IsSettled (request 3) busy (handle_submit 9 (request 3) busy)
handle_submit-IsSettled_example = handle_submit-IsSettled 9 (request 3) busy
