-- ===== src/Runtime/Binding/Laws/Bounds.antt =====
-- The configuration that `Bind` gives a coordinator (runtime/binding.go).
use batch_weaver.Base.{ℕ, ◌≤◌, ◌≡◌, refl, sym, subst, arith, ℤ, pos, negsuc, pos_part, ◌≤ℤ◌, ok}
use batch_weaver.Operation.Policies.{SchedulerPolicy}
use batch_weaver.Operation.Spec.{Spec}
use batch_weaver.Operation.Spec.Laws.{IsLimited, validate-IsLimited}
use batch_weaver.Runtime.Policy.{QueueLimits, merge, Config}
use batch_weaver.Runtime.State.{Coordinator}
use batch_weaver.Runtime.Bounded.{IsBounded}
use batch_weaver.Runtime.Bounded.Reach.{Reach, Reach-IsBounded}
use batch_weaver.Runtime.Memo.{KeyStrategy}
use batch_weaver.Runtime.Engine.{as_limits, Engine}
use batch_weaver.Runtime.Binding.{Binding, Bound, at_least_one, spec_limits, bound_config, bind}
use batch_weaver.Runtime.Binding.Laws.{bind-IsBinding}

pos-pos_part : (v : ℤ) → pos 0 ≤ℤ v → pos (pos_part v) ≡ v
pos-pos_part (pos n) h = refl
pos-pos_part (negsuc n) h = ground (arith, h)

pos-at_least_one : (v : ℤ) → pos 1 ≤ℤ v → pos (at_least_one v) ≡ v
pos-at_least_one (pos n) h = ground (arith, h)
pos-at_least_one (negsuc n) h = ground (arith, h)

-- The configuration has the numbers of the scheduler policy.
abbrev pub IsConfigOf : {K : Type 0} → SchedulerPolicy → Config K → Type 0
IsConfigOf sp cfg =
    (pos cfg.max_batch_size ≡ sp.max_batch_size)
    × (pos cfg.max_batch_weight ≡ sp.max_batch_weight)
    × (pos cfg.max_batch_bytes ≡ sp.max_payload_bytes)
    × (pos cfg.max_wait ≡ sp.max_wait)
    × (pos cfg.deadline_margin ≡ sp.deadline_margin)
    × (pos cfg.max_concurrency ≡ sp.max_concurrency)

weaker : (v : ℤ) → pos 1 ≤ℤ v → pos 0 ≤ℤ v
weaker v h = ground (arith, h)

-- The limits on items, bytes, weight and partitions bound something.
abbrev pub IsLimiting : QueueLimits → Type 0
IsLimiting l = (1 ≤ l.max_items) × (1 ≤ l.max_bytes) × (1 ≤ l.max_weight) × (1 ≤ l.max_partitions)

positive : (v : ℤ) → pos 1 ≤ℤ v → 1 ≤ pos_part v
positive v h = ground (arith, h)

merge-IsLimiting : (l m n : QueueLimits) → IsLimiting m → IsLimiting (merge (merge l m) n)
unfolding merge
merge-IsLimiting l m n h =
    (ground (arith, h.0), ground (arith, h.1), ground (arith, h.2), ground (arith, h.3))

sized : (v : ℤ) (n : ℕ) → pos n ≡ v → pos 1 ≤ℤ v → 1 ≤ n
sized v n e h = omega (arith, subst (λ u. pos 1 ≤ℤ u) (sym e) h)

module _ {K : Type 0} where
  bound_config-IsConfigOf :
      (e : Engine) (spec : Spec) (b : Binding K) (keys : KeyStrategy K)
      → IsLimited spec.scheduler_policy
      → IsConfigOf spec.scheduler_policy (bound_config e spec b keys)
  unfolding bound_config
  bound_config-IsConfigOf e spec b keys l =
      let sp = spec.scheduler_policy in
      (
        pos-at_least_one sp.max_batch_size l.2,
        pos-pos_part sp.max_batch_weight (weaker sp.max_batch_weight l.3),
        pos-pos_part sp.max_payload_bytes (weaker sp.max_payload_bytes l.4),
        pos-pos_part sp.max_wait l.5,
        pos-pos_part sp.deadline_margin l.6,
        pos-at_least_one sp.max_concurrency l.7,
      )

  -- A binding that succeeds bounds batches, waits and provider calls by the numbers of the
  -- operation's scheduler policy, unchanged: its raising of sizes and concurrency to one never
  -- changes a valid operation.
  pub bind-IsConfigOf :
      (e : Engine) (spec : Spec) (b : Binding K) (r : Bound K × Engine)
      → bind e spec b ≡ ok r
      → IsConfigOf spec.scheduler_policy (r.0.config)
  bind-IsConfigOf e spec b r h =
      let v = bind-IsBinding e spec b r h in
      subst (λ (o : Bound K). IsConfigOf spec.scheduler_policy o.config) v.bound
        (bound_config-IsConfigOf e spec b v.keys (validate-IsLimited spec v.valid))

  -- A binding that succeeds leaves no queue unbounded in items, bytes, weight or partitions,
  -- whatever limits the binding and the engine give.
  pub bind-IsLimiting :
      (e : Engine) (spec : Spec) (b : Binding K) (r : Bound K × Engine)
      → bind e spec b ≡ ok r
      → IsLimiting (r.0.config.limits)
  unfolding bound_config
  bind-IsLimiting e spec b r h =
      let v = bind-IsBinding e spec b r h in
      let sp = spec.scheduler_policy in
      let l = validate-IsLimited spec v.valid in
      subst (λ (o : Bound K). IsLimiting o.config.limits) v.bound
        (merge-IsLimiting (as_limits b.limits) (spec_limits sp) e.default_limits (
          positive sp.queue_items l.8,
          positive sp.queue_bytes l.9,
          positive sp.max_batch_weight l.3,
          positive sp.active_partitions l.10,
        ))

  -- From a binding that succeeds on, in every state that its coordinator reaches, by rounds with any
  -- events and any tuning between rounds, provider calls stay within the configured concurrency,
  -- there is one batch in flight for each, and every batch in flight stays within the configured
  -- size, and within the configured weight and bytes unless one of its items passes the int64 range
  -- together with that limit.
  pub bind-IsBounded :
      {V E : Type 0} (e : Engine) (spec : Spec) (b : Binding K) (r : Bound K × Engine)
      {c : Coordinator K V E}
      → bind e spec b ≡ ok r
      → Reach (r.0.config) c
      → IsBounded c
  bind-IsBounded e spec b r h reach =
      let l = validate-IsLimited spec (bind-IsBinding e spec b r h).valid in
      let n = bind-IsConfigOf e spec b r h in
      let sp = spec.scheduler_policy in
      Reach-IsBounded (sized sp.max_batch_size (r.0.config.max_batch_size) n.0 l.2)
        (sized sp.max_concurrency (r.0.config.max_concurrency) n.5 l.7) reach
