-- ===== src/Runtime/Policy/Bounds.antt =====
-- What adaptive tuning and merged limits can and cannot do (runtime/adaptive.go, policy.go).
use batch_weaver.Base.{ℕ, ◌≤◌, ◌<◌, ◌≡◌, arith, pos}
use batch_weaver.Runtime.Policy.{
  QueueLimits, merge, AdaptiveSettings, Config, apply_adaptive_settings,
}

module _ {K : Type 0} where
  -- Whatever settings a tuner offers, negative ones included, the stored wait, batch size and
  -- concurrency never pass the configured ones, provided that the configured wait is positive;
  -- and the size and the concurrency stay at least one when the configured ones are.
  pub apply_adaptive_settings_bounds :
      (cfg : Config K) (s : AdaptiveSettings)
      → 1 ≤ cfg.max_batch_size
      → 1 ≤ cfg.max_concurrency
      → 1 ≤ cfg.max_wait
      → let ds = apply_adaptive_settings cfg s in
        (ds.max_wait ≤ cfg.max_wait)
        × (ds.max_batch_size ≤ cfg.max_batch_size)
        × (1 ≤ ds.max_batch_size)
        × (ds.max_concurrency ≤ cfg.max_concurrency)
        × (1 ≤ ds.max_concurrency)
  unfolding apply_adaptive_settings
  apply_adaptive_settings_bounds cfg s hb hc hw =
      (ground arith, ground arith, ground arith, ground arith, ground arith)

  -- With a configured wait of zero the clamp has no upper end: a tuner's positive wait is stored
  -- as it is, above the configured one.
  pub apply_adaptive_settings-wait_unbounded :
      (cfg : Config K) (s : AdaptiveSettings) (w : ℕ)
      → cfg.max_wait ≡ 0
      → 0 < w
      → s.max_wait ≡ pos w
      → (apply_adaptive_settings cfg s).max_wait ≡ w
  unfolding apply_adaptive_settings
  apply_adaptive_settings-wait_unbounded cfg s w hz hp e = ground arith

abbrev pub unlimited : QueueLimits
unlimited = record {
  max_items = 0;
  max_waiters = 0;
  max_bytes = 0;
  max_weight = 0;
  max_partitions = 0;
}

-- Merging limits is associative, and leaves limits as they are that are merged with themselves
-- or, on either side, with limits that bound nothing.
pub merge_monoid :
    (k l m : QueueLimits)
    → (merge (merge k l) m ≡ merge k (merge l m))
      × (merge l l ≡ l)
      × (merge unlimited l ≡ l)
      × (merge l unlimited ≡ l)
unfolding merge
merge_monoid k l m = (ground arith, ground arith, ground arith, ground arith)
