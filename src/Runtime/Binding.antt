-- ===== src/Runtime/Binding.antt =====
-- `Bind` of runtime/binding.go: from an operation's declaration, a binding and an engine to the
-- configuration of a bound operation. Provider, partitioner, weight and fallback are functions that
-- Bind only tests for nil; their calls are in Runtime/Caller. A failed `ValidationError` carries the
-- codes of its diagnostics.
pub mod Laws
use batch_weaver.Base.{
  ℕ, Bool, true, false, not, ◌&&◌, ◌||◌, List, [], ◌∷◌, Option, none, some, ℤ, pos, pos_part, ltb_ℤ,
  Bytes, ◌==◌, is_empty, guards, or_else, if◌then◌else◌, Result, ok, err,
}
use batch_weaver.Operation.Kind.{Effect, effect_code}
use batch_weaver.Operation.Semantics.{Semantics}
use batch_weaver.Operation.Policies.{
  SchedulerMode, SchedulerPolicy, OverflowBehavior, DeduplicationPolicy,
}
use batch_weaver.Operation.Spec.{Spec, Finding, validate}
use batch_weaver.Runtime.Policy.{
  QueueLimits, merge, OverflowPolicy, reject, block, fallback, FlushMode, immediate, fixed_window,
  deadline_aware, manually, Config,
}
use batch_weaver.Runtime.Memo.{KeyStrategy, MemoConfig}
use batch_weaver.Runtime.Engine.{
  GivenLimits, has_negative, as_limits, Engine, EngineError, ensure_open, register_controller,
}

pub record Binding (K : Type 0) : Type 0 where
  pub has_provider : Bool
  pub keys : Option (KeyStrategy K)
  pub has_fallback : Bool
  pub limits : GivenLimits
  pub overflow : Option OverflowPolicy
  pub require_scope : Bool
  pub enable_memoization : Bool

-- `bindingConfig`: what the coordinator reads, and what `Do` reads beside it.
pub record Bound (K : Type 0) : Type 0 where
  pub op_id : Bytes
  pub keys : KeyStrategy K
  pub config : Config K
  pub memo : MemoConfig
  pub has_fallback : Bool
  pub require_scope : Bool

pub data BindError : Type 0 where
  not_open : EngineError → BindError
  invalid_spec : List Finding → BindError
  no_provider no_keys negative_limits dedup_not_permitted memo_not_permitted : BindError
  no_fallback : BindError
  not_registered : EngineError → BindError

unfoldable pub normalize_flush_mode : SchedulerMode → FlushMode
normalize_flush_mode SchedulerMode.immediate_wave = immediate
normalize_flush_mode SchedulerMode.manual = manually
normalize_flush_mode SchedulerMode.deadline_aware = deadline_aware
normalize_flush_mode _ = fixed_window

-- `if v < 1 { v = 1 }`
abbrev pub at_least_one : ℤ → ℕ
at_least_one v = if ltb_ℤ v (pos 1) then 1 else pos_part v

-- The limits that the specification asks for. They are positive, as it is valid.
abbrev pub spec_limits : SchedulerPolicy → QueueLimits
spec_limits sp = record {
  max_items = pos_part sp.queue_items;
  max_waiters = 0;
  max_bytes = pos_part sp.queue_bytes;
  max_weight = pos_part sp.max_batch_weight;
  max_partitions = pos_part sp.active_partitions;
}

-- The switch on the specification's overflow behavior, over the engine's default.
abbrev pub spec_overflow : OverflowPolicy → OverflowBehavior → OverflowPolicy
spec_overflow default OverflowBehavior.reject = reject
spec_overflow default OverflowBehavior.block = block
spec_overflow default OverflowBehavior.fallback = fallback
spec_overflow default (OverflowBehavior.undefined n) = default

abbrev pub bound_overflow : Option OverflowPolicy → OverflowPolicy → OverflowPolicy
bound_overflow (some p) q = p
bound_overflow none q = q

abbrev pub is_fallback : OverflowPolicy → Bool
is_fallback fallback = true
is_fallback reject = false
is_fallback block = false

-- `spec.DeduplicationPolicy().ScopeMemoization() || b.EnableMemoization`
abbrev pub wants_memo : {K : Type 0} → Spec → Binding K → Bool
wants_memo spec b = spec.deduplication_policy.scope_memoization || b.enable_memoization

abbrev pub memo_permitted : Semantics → Bool
memo_permitted sem =
    (effect_code sem.effect == effect_code Effect.read) && not sem.freshness_dependent

-- The error of `ensureOpen`.
abbrev pub open_test : Option EngineError → Option BindError
open_test none = none
open_test (some x) = some (not_open x)

module _ {K : Type 0} where
  -- The memory of an operation that wants one, and an unused one.
  abbrev pub bound_memo : Spec → Binding K → MemoConfig
  bound_memo spec b =
      let d = spec.deduplication_policy in
      if wants_memo spec b
      then record {
        enabled = true;
        negative = d.negative_memoization;
        max_items = if ltb_ℤ d.max_items (pos 1) then 1024 else pos_part d.max_items;
        max_bytes = pos_part d.max_bytes;
      }
      else record { enabled = false; negative = false; max_items = 0; max_bytes = 0 }

  abbrev pub overflow_of : Engine → Spec → Binding K → OverflowPolicy
  overflow_of e spec b =
      bound_overflow b.overflow (spec_overflow e.default_overflow spec.scheduler_policy.overflow)

  unfoldable pub bound_config : Engine → Spec → Binding K → KeyStrategy K → Config K
  unfolding merge normalize_flush_mode
  bound_config e spec b keys =
      let sp = spec.scheduler_policy in
      record {
        equal = keys.equal;
        limits = merge (merge (as_limits b.limits) (spec_limits sp)) e.default_limits;
        policy = overflow_of e spec b;
        flush_mode = normalize_flush_mode sp.mode;
        max_batch_size = at_least_one sp.max_batch_size;
        max_batch_weight = pos_part sp.max_batch_weight;
        max_batch_bytes = pos_part sp.max_payload_bytes;
        max_wait = pos_part sp.max_wait;
        deadline_margin = pos_part sp.deadline_margin;
        max_concurrency = at_least_one sp.max_concurrency;
        dedup_enabled = spec.deduplication_policy.in_flight;
      }

  -- The tests of `Bind` that come before its use of the key strategy, and those that come after.
  abbrev pub first_tests : Spec → Binding K → List (Bool × BindError)
  first_tests spec b =
      (not (is_empty (validate spec)), invalid_spec (validate spec))
      ∷ (not b.has_provider, no_provider)
      ∷ []

  abbrev pub last_tests : Engine → Spec → Binding K → List (Bool × BindError)
  last_tests e spec b =
      (has_negative b.limits, negative_limits)
      ∷ (
        spec.deduplication_policy.in_flight && not spec.semantics.deduplication_allowed,
        dedup_not_permitted,
      )
      ∷ (wants_memo spec b && not (memo_permitted spec.semantics), memo_not_permitted)
      ∷ (is_fallback (overflow_of e spec b) && not b.has_fallback, no_fallback)
      ∷ []

  abbrev pub new_bound : Engine → Spec → Binding K → KeyStrategy K → Bound K
  new_bound e spec b keys = record {
    op_id = spec.id;
    keys = keys;
    config = bound_config e spec b keys;
    memo = bound_memo spec b;
    has_fallback = b.has_fallback;
    require_scope = b.require_scope;
  }

  -- The end of `Bind`, once its tests have passed.
  abbrev pub register_bound :
      Bound K → Result EngineError Engine → Result BindError (Bound K × Engine)
  register_bound o (ok e) = ok (o, e)
  register_bound o (err x) = err (not_registered x)

  abbrev pub bind_checked :
      Bound K → Engine → Option BindError → Result BindError (Bound K × Engine)
  bind_checked o e (some x) = err x
  bind_checked o e none = register_bound o (register_controller o.op_id e)

  -- `Bind` on an engine, from its first tests and the key strategy.
  abbrev pub bind_keys :
      Engine
      → Spec
      → Binding K
      → Option BindError
      → Option (KeyStrategy K)
      → Result BindError (Bound K × Engine)
  bind_keys e spec b (some x) keys = err x
  bind_keys e spec b none none = err no_keys
  bind_keys e spec b none (some keys) =
      bind_checked (new_bound e spec b keys) e (guards (last_tests e spec b))

  unfoldable pub bind : Engine → Spec → Binding K → Result BindError (Bound K × Engine)
  unfolding ensure_open validate has_negative register_controller bound_config
  bind e spec b =
      bind_keys e spec b (or_else (open_test (ensure_open e)) (guards (first_tests spec b))) b.keys
