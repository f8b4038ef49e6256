-- ===== src/Runtime/Policy.antt =====
-- runtime/policy.go and runtime/adaptive.go: queue limits, overflow policies, flush reasons, and the
-- settings that adaptive tuning may override. Configured numbers are not negative (`Bind` and the
-- validation see to it); the settings offered by a tuner are signed.
pub mod Bounds
use batch_weaver.Base.{
  ℕ, Bool, true, false, ◌&&◌, ◌||◌, Option, none, some, ℤ, pos, pos_part, ltb_ℤ, is_zero, ltb, ◌==◌,
  if◌then◌else◌,
}

-- A zero field is no limit.
pub record QueueLimits : Type 0 where
  pub max_items : ℕ
  pub max_waiters : ℕ
  pub max_bytes : ℕ
  pub max_weight : ℕ
  pub max_partitions : ℕ

-- `merge`: a zero field is taken from the other limits.
unfoldable pub merge : QueueLimits → QueueLimits → QueueLimits
merge l o = record {
  max_items = if l.max_items == 0 then o.max_items else l.max_items;
  max_waiters = if l.max_waiters == 0 then o.max_waiters else l.max_waiters;
  max_bytes = if l.max_bytes == 0 then o.max_bytes else l.max_bytes;
  max_weight = if l.max_weight == 0 then o.max_weight else l.max_weight;
  max_partitions = if l.max_partitions == 0 then o.max_partitions else l.max_partitions;
}

pub data OverflowPolicy : Type 0 where
  reject fallback block : OverflowPolicy

pub data FlushReason : Type 0 where
  manual size weight bytes wait deadline scope_close engine_close overflow : FlushReason

pub data FlushMode : Type 0 where
  immediate fixed_window deadline_aware manually : FlushMode

pub record AdaptiveSettings : Type 0 where
  pub max_wait : ℤ
  pub max_batch_size : ℤ
  pub max_concurrency : ℤ

pub record DynamicSettings : Type 0 where
  pub max_wait : ℕ
  pub max_batch_size : ℕ
  pub max_concurrency : ℕ

-- `bindingConfig`, without the callbacks, which enter where they are called. `equal` is the key
-- strategy's `Equal`.
pub record Config (K : Type 0) : Type 0 where
  pub equal : K → K → Bool
  pub limits : QueueLimits
  pub policy : OverflowPolicy
  pub flush_mode : FlushMode
  pub max_batch_size : ℕ
  pub max_batch_weight : ℕ
  pub max_batch_bytes : ℕ
  pub max_wait : ℕ
  pub deadline_margin : ℕ
  pub max_concurrency : ℕ
  pub dedup_enabled : Bool

-- `clampInt` and `clampDur`, whose lower bound is never negative: a value that passes the first
-- test is a number.
unfoldable pub clamp : ℤ → ℕ → ℕ → ℕ
clamp v lo hi =
    let raised = if ltb_ℤ v (pos lo) then lo else pos_part v in
    if ltb 0 hi && ltb hi raised then hi else raised

module _ {K : Type 0} where
  unfoldable pub applied_wait : Config K → ℤ → ℕ
  unfolding clamp
  applied_wait cfg w =
      if ltb_ℤ (pos 0) w && ltb_ℤ w (pos cfg.max_wait)
      then pos_part w
      else if is_zero w
      then cfg.max_wait
      else clamp w 0 cfg.max_wait

  -- `ApplyAdaptiveSettings`: the value that it stores for the coordinator.
  unfoldable pub apply_adaptive_settings : Config K → AdaptiveSettings → DynamicSettings
  unfolding applied_wait clamp
  apply_adaptive_settings cfg s = record {
    max_wait = applied_wait cfg s.max_wait;
    max_batch_size =
        if ltb_ℤ (pos 0) s.max_batch_size
        then clamp s.max_batch_size 1 cfg.max_batch_size
        else cfg.max_batch_size;
    max_concurrency =
        if ltb_ℤ (pos 0) s.max_concurrency
        then clamp s.max_concurrency 1 cfg.max_concurrency
        else cfg.max_concurrency;
  }

  unfoldable pub effective_max_wait : Config K → Option DynamicSettings → ℕ
  effective_max_wait cfg none = cfg.max_wait
  effective_max_wait cfg (some ds) = ds.max_wait

  unfoldable pub effective_max_batch_size : Config K → Option DynamicSettings → ℕ
  effective_max_batch_size cfg none = cfg.max_batch_size
  effective_max_batch_size cfg (some ds) = ds.max_batch_size

  unfoldable pub effective_max_concurrency : Config K → Option DynamicSettings → ℕ
  effective_max_concurrency cfg none = cfg.max_concurrency
  effective_max_concurrency cfg (some ds) = ds.max_concurrency
