-- ===== src/Runtime/Bounded.antt =====
-- The hard limits of a bound operation, as a predicate on the state of its coordinator: the number
-- of provider calls, and the size, weight and bytes of every batch in flight.
pub mod Frames
pub mod Steps
pub mod Rounds
pub mod Reach
use batch_weaver.Base.{ℕ, ◌≤◌, ◌<◌, ◌≡◌, List, Option, none, some, length, All, arith}
use batch_weaver.Runtime.Policy.{Config, DynamicSettings}
use batch_weaver.Runtime.State.{Coordinator}
use batch_weaver.Runtime.Select.Bounds.{IsCapped}
use batch_weaver.Runtime.Shapes.{Shape, shapes}
use batch_weaver.Runtime.Frame.{Frame}

module _ {K : Type 0} where
  -- A batch within the configured limits, where zero is no limit on weight or bytes, and where an item
  -- that is so heavy that it passes the int64 range together with the limit may break it.
  pub record IsSmall (cfg : Config K) (s : Shape) : Type 0 where
    pub size : s.count ≤ cfg.max_batch_size
    pub weight : IsCapped cfg.max_batch_weight s.weights
    pub bytes : IsCapped cfg.max_batch_bytes s.loads

  -- Tuned settings never pass the configured size and concurrency.
  abbrev pub IsTuned : Config K → Option DynamicSettings → Type 0
  IsTuned cfg none = Unit {0}
  IsTuned cfg (some ds) =
      (1 ≤ ds.max_batch_size)
      × (ds.max_batch_size ≤ cfg.max_batch_size)
      × (ds.max_concurrency ≤ cfg.max_concurrency)

module _ {K V E : Type 0} where
  pub record IsBounded (c : Coordinator K V E) : Type 0 where
    pub sized : 1 ≤ c.config.max_batch_size
    pub capable : 1 ≤ c.config.max_concurrency
    pub tuned : IsTuned c.config c.dyn
    pub calls : length c.inflight ≡ c.active_provider
    pub concurrency : c.active_provider ≤ c.config.max_concurrency
    pub batches : All (IsSmall c.config) (shapes c.inflight)
