-- ===== src/Runtime/Select.antt =====
-- runtime/coordinator_dispatch.go: which pending items a batch takes (`dispatchBatch` up to the
-- request, `fits`, `itemTooLarge`), and the deadlines that it reads (`earliestDeadline`,
-- `latestDeadline` and `batchContext`).
pub mod Bounds
use batch_weaver.Base.{
  ℕ, suc, ◌+◌, Bool, true, false, not, ◌&&◌, ◌||◌, List, [], ◌∷◌, Option, none, some, ◌==◌, ltb,
  leb, if◌then◌else◌,
}
use batch_weaver.Runtime.State.{Waiter, Item, add_i64, is_above}

-- The limits of a batch: the effective size, and the configured weight and bytes (zero: none).
pub record BatchLimits : Type 0 where
  pub size : ℕ
  pub weight : ℕ
  pub bytes : ℕ

-- What one walk over the pending items makes of each: taken into the batch, left pending, failed
-- as too large, or dropped because nobody waits any more.
pub record Selection (K : Type 0) : Type 0 where
  pub selected : List (Item K)
  pub remaining : List (Item K)
  pub too_large : List (Item K)
  pub dropped : List (Item K)

module _ {K : Type 0} where
  unfoldable pub item_too_large : BatchLimits → Item K → Bool
  item_too_large l it =
      (ltb 0 l.weight && ltb l.weight it.weight) || (ltb 0 l.bytes && ltb l.bytes it.bytes)

  unfoldable pub fits : BatchLimits → ℕ → ℕ → ℕ → Item K → Bool
  unfolding add_i64
  fits l count weight bytes it =
      if ltb 0 l.size && ltb l.size (count + 1)
      then false
      else if ltb 0 l.weight && is_above l.weight (add_i64 weight it.weight)
      then false
      else not (ltb 0 l.bytes && is_above l.bytes (add_i64 bytes it.bytes))

  -- The loop, with the number, the weight and the bytes selected so far.
  unfoldable pub select : BatchLimits → ℕ → ℕ → ℕ → List (Item K) → Selection K
  unfolding item_too_large fits add_i64
  select l count weight bytes [] = record {
    selected = [];
    remaining = [];
    too_large = [];
    dropped = [];
  }
  select l count weight bytes (it ∷ its) =
      let same = select l count weight bytes its in
      let more = select l (count + 1) (add_i64 weight it.weight) (add_i64 bytes it.bytes) its in
      if it.active_waiters == 0
      then record same { dropped = it ∷ same.dropped }
      else if count == 0 && item_too_large l it
      then record same { too_large = it ∷ same.too_large }
      else if ltb 0 count && not (fits l count weight bytes it)
      then record same { remaining = it ∷ same.remaining }
      else record more { selected = it ∷ more.selected }

-- The earlier of two optional times; `none` is no deadline.
unfoldable pub earlier : Option ℕ → Option ℕ → Option ℕ
earlier none b = b
earlier (some a) none = some a
earlier (some a) (some b) = if ltb b a then some b else some a

-- `item.earliestDeadline`: over the active waiters that have one.
unfoldable pub earliest_waiter : List Waiter → Option ℕ
unfolding earlier
earliest_waiter [] = none
earliest_waiter (w ∷ ws) = earlier (if w.active then w.deadline else none) (earliest_waiter ws)

-- `coordinator.earliestDeadline`
unfoldable pub earliest_deadline : {K : Type 0} → List (Item K) → Option ℕ
unfolding earlier earliest_waiter
earliest_deadline [] = none
earliest_deadline (it ∷ its) = earlier (earliest_waiter it.waiters) (earliest_deadline its)

-- The loops of `latestDeadline` and `batchContext`: the latest time, or `none` when something has
-- no deadline; `empty` when there is nothing to look at.
pub data Latest : Type 0 where
  empty : Latest
  unbounded : Latest
  until : ℕ → Latest

unfoldable pub later : Latest → Latest → Latest
later empty b = b
later unbounded b = unbounded
later (until a) empty = until a
later (until a) unbounded = unbounded
later (until a) (until b) = if ltb a b then until b else until a

abbrev bound_of : Option ℕ → Latest
bound_of none = unbounded
bound_of (some t) = until t

unfoldable pub latest_waiter : List Waiter → Latest
unfolding later
latest_waiter [] = empty
latest_waiter (w ∷ ws) =
    if w.active then later (bound_of w.deadline) (latest_waiter ws) else latest_waiter ws

-- `latestDeadline` of an item without an active waiter is no deadline.
abbrev item_bound : Latest → Latest
item_bound empty = unbounded
item_bound b = b

unfoldable pub latest_item : {K : Type 0} → List (Item K) → Latest
unfolding later latest_waiter
latest_item [] = empty
latest_item (it ∷ its) = later (item_bound (latest_waiter it.waiters)) (latest_item its)

-- `batchContext`: the deadline of the provider's context.
unfoldable pub batch_deadline : {K : Type 0} → List (Item K) → Option ℕ
unfolding latest_item
batch_deadline its = elim (latest_item its) [ until t ↦ some t | _ ↦ none ]
