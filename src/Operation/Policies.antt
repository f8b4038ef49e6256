-- ===== src/Operation/Policies.antt =====
-- operation/scheduler.go, operation/deduplication.go, operation/retry.go and operation/fallback.go: the
-- policies of an operation. Durations are nanoseconds.
use batch_weaver.Base.{
  ℕ, ◌+◌, Bool, false, not, ◌&&◌, ◌||◌, List, [], ◌∷◌, Option, none, some, ℤ, pos, is_zero, ltb_ℤ,
  ltb, ◌==◌, any, is_empty, guards, or_else, if◌then◌else◌,
}
use batch_weaver.Operation.Symbol.{Symbol, SymbolError, no_symbol, is_no_symbol}
use batch_weaver.Operation.Contracts.{validate_given}

pub data SchedulerMode : Type 0 where
  immediate_wave fixed_window adaptive manual throughput latency deadline_aware : SchedulerMode
  undefined : ℕ → SchedulerMode

abbrev pub scheduler_mode_code : SchedulerMode → ℕ
scheduler_mode_code SchedulerMode.immediate_wave = 0
scheduler_mode_code SchedulerMode.fixed_window = 1
scheduler_mode_code SchedulerMode.adaptive = 2
scheduler_mode_code SchedulerMode.manual = 3
scheduler_mode_code SchedulerMode.throughput = 4
scheduler_mode_code SchedulerMode.latency = 5
scheduler_mode_code SchedulerMode.deadline_aware = 6
scheduler_mode_code (SchedulerMode.undefined n) = 7 + n

pub data FairnessMode : Type 0 where
  fifo weighted : FairnessMode
  undefined : ℕ → FairnessMode

abbrev pub fairness_code : FairnessMode → ℕ
fairness_code FairnessMode.fifo = 0
fairness_code FairnessMode.weighted = 1
fairness_code (FairnessMode.undefined n) = 2 + n

pub data OverflowBehavior : Type 0 where
  block reject fallback : OverflowBehavior
  undefined : ℕ → OverflowBehavior

abbrev pub overflow_code : OverflowBehavior → ℕ
overflow_code OverflowBehavior.block = 0
overflow_code OverflowBehavior.reject = 1
overflow_code OverflowBehavior.fallback = 2
overflow_code (OverflowBehavior.undefined n) = 3 + n

-- `SchedulerParams`, which `SchedulerPolicy` wraps.
pub record SchedulerPolicy : Type 0 where
  pub mode : SchedulerMode
  pub min_batch_size : ℤ
  pub max_batch_size : ℤ
  pub max_batch_weight : ℤ
  pub max_payload_bytes : ℤ
  pub max_wait : ℤ
  pub deadline_margin : ℤ
  pub max_concurrency : ℤ
  pub queue_items : ℤ
  pub queue_bytes : ℤ
  pub active_partitions : ℤ
  pub waiters_per_key : ℤ
  pub fairness : FairnessMode
  pub priority_support : Bool
  pub overflow : OverflowBehavior

pub data SchedulerError : Type 0 where
  mode fairness overflow min_batch_size max_batch_size min_over_max max_batch_weight :
      SchedulerError
  max_payload_bytes max_wait deadline_margin max_concurrency queue_items : SchedulerError
  queue_bytes active_partitions waiters_per_key manual_wait adaptive_wait : SchedulerError

-- The tests of `SchedulerPolicy.Validate`.
abbrev pub scheduler_tests : SchedulerPolicy → List (Bool × SchedulerError)
scheduler_tests q =
    (not (ltb (scheduler_mode_code q.mode) 7), SchedulerError.mode)
    ∷ (not (ltb (fairness_code q.fairness) 2), SchedulerError.fairness)
    ∷ (not (ltb (overflow_code q.overflow) 3), SchedulerError.overflow)
    ∷ (ltb_ℤ q.min_batch_size (pos 1), SchedulerError.min_batch_size)
    ∷ (ltb_ℤ q.max_batch_size (pos 1), SchedulerError.max_batch_size)
    ∷ (ltb_ℤ q.max_batch_size q.min_batch_size, SchedulerError.min_over_max)
    ∷ (ltb_ℤ q.max_batch_weight (pos 1), SchedulerError.max_batch_weight)
    ∷ (ltb_ℤ q.max_payload_bytes (pos 1), SchedulerError.max_payload_bytes)
    ∷ (ltb_ℤ q.max_wait (pos 0), SchedulerError.max_wait)
    ∷ (ltb_ℤ q.deadline_margin (pos 0), SchedulerError.deadline_margin)
    ∷ (ltb_ℤ q.max_concurrency (pos 1), SchedulerError.max_concurrency)
    ∷ (ltb_ℤ q.queue_items (pos 1), SchedulerError.queue_items)
    ∷ (ltb_ℤ q.queue_bytes (pos 1), SchedulerError.queue_bytes)
    ∷ (ltb_ℤ q.active_partitions (pos 1), SchedulerError.active_partitions)
    ∷ (ltb_ℤ q.waiters_per_key (pos 1), SchedulerError.waiters_per_key)
    ∷ (
      (scheduler_mode_code q.mode == scheduler_mode_code SchedulerMode.manual)
          && ltb_ℤ (pos 0) q.max_wait,
      SchedulerError.manual_wait,
    )
    ∷ (
      (scheduler_mode_code q.mode == scheduler_mode_code SchedulerMode.adaptive)
          && not (ltb_ℤ (pos 0) q.max_wait),
      SchedulerError.adaptive_wait,
    )
    ∷ []

unfoldable pub validate_scheduler : SchedulerPolicy → Option SchedulerError
validate_scheduler q = guards (scheduler_tests q)

abbrev pub default_scheduler_policy : SchedulerPolicy
default_scheduler_policy = record {
  mode = SchedulerMode.immediate_wave;
  min_batch_size = pos 1;
  max_batch_size = pos 256;
  max_batch_weight = pos 4096;
  max_payload_bytes = pos 4194304;
  max_wait = pos 0;
  deadline_margin = pos 0;
  max_concurrency = pos 1;
  queue_items = pos 100000;
  queue_bytes = pos 67108864;
  active_partitions = pos 1024;
  waiters_per_key = pos 1024;
  fairness = FairnessMode.fifo;
  priority_support = false;
  overflow = OverflowBehavior.block;
}

pub data DeduplicationMode : Type 0 where
  disabled exact canonical : DeduplicationMode
  undefined : ℕ → DeduplicationMode

abbrev pub deduplication_code : DeduplicationMode → ℕ
deduplication_code DeduplicationMode.disabled = 0
deduplication_code DeduplicationMode.exact = 1
deduplication_code DeduplicationMode.canonical = 2
deduplication_code (DeduplicationMode.undefined n) = 3 + n

pub record DeduplicationPolicy : Type 0 where
  pub mode : DeduplicationMode
  pub in_flight : Bool
  pub scope_memoization : Bool
  pub negative_memoization : Bool
  pub error_memoization : Bool
  pub max_items : ℤ
  pub max_bytes : ℤ
  pub canonicalizer : Symbol

pub data DeduplicationError : Type 0 where
  mode no_canonicalizer max_items max_bytes : DeduplicationError
  symbol : SymbolError → DeduplicationError

-- `Enabled`
unfoldable pub is_dedup_enabled : DeduplicationPolicy → Bool
is_dedup_enabled p =
    not (deduplication_code p.mode == deduplication_code DeduplicationMode.disabled)

-- `DeduplicationPolicy.Validate`, which looks no further when the mode is disabled.
unfoldable pub validate_deduplication : DeduplicationPolicy → Option DeduplicationError
unfolding is_dedup_enabled
validate_deduplication q =
    or_else (guards ((not (ltb (deduplication_code q.mode) 3), DeduplicationError.mode) ∷ [])) (
      if not (is_dedup_enabled q)
      then none
      else or_else
          (guards (
            (
              (deduplication_code q.mode == deduplication_code DeduplicationMode.canonical)
                  && is_no_symbol q.canonicalizer,
              DeduplicationError.no_canonicalizer,
            )
            ∷ []))
          (or_else
            (elim (validate_given q.canonicalizer) [
              | some e ↦ some (DeduplicationError.symbol e)
              | none ↦ none
            ])
            (guards (
              (q.scope_memoization && ltb_ℤ q.max_items (pos 1), DeduplicationError.max_items)
              ∷ (q.scope_memoization && ltb_ℤ q.max_bytes (pos 1), DeduplicationError.max_bytes)
              ∷ []))))

abbrev pub default_deduplication_policy : DeduplicationPolicy
default_deduplication_policy = record {
  mode = DeduplicationMode.disabled;
  in_flight = false;
  scope_memoization = false;
  negative_memoization = false;
  error_memoization = false;
  max_items = pos 0;
  max_bytes = pos 0;
  canonicalizer = no_symbol;
}

pub data JitterMode : Type 0 where
  no_jitter full equal : JitterMode
  undefined : ℕ → JitterMode

abbrev pub jitter_code : JitterMode → ℕ
jitter_code JitterMode.no_jitter = 0
jitter_code JitterMode.full = 1
jitter_code JitterMode.equal = 2
jitter_code (JitterMode.undefined n) = 3 + n

pub data RetryClassification : Type 0 where
  transport throttled timeout unavailable conflict : RetryClassification
  undefined : ℕ → RetryClassification

abbrev pub classification_code : RetryClassification → ℕ
classification_code RetryClassification.transport = 0
classification_code RetryClassification.throttled = 1
classification_code RetryClassification.timeout = 2
classification_code RetryClassification.unavailable = 3
classification_code RetryClassification.conflict = 4
classification_code (RetryClassification.undefined n) = 5 + n

pub data UnknownOutcomeBehavior : Type 0 where
  no_retry retry : UnknownOutcomeBehavior
  undefined : ℕ → UnknownOutcomeBehavior

abbrev pub unknown_outcome_code : UnknownOutcomeBehavior → ℕ
unknown_outcome_code UnknownOutcomeBehavior.no_retry = 0
unknown_outcome_code UnknownOutcomeBehavior.retry = 1
unknown_outcome_code (UnknownOutcomeBehavior.undefined n) = 2 + n

pub record RetryPolicy : Type 0 where
  pub enabled : Bool
  pub max_attempts : ℤ
  pub initial_backoff : ℤ
  pub max_backoff : ℤ
  pub jitter : JitterMode
  pub retryable : List RetryClassification
  pub respect_retry_after : Bool
  pub partial_item_retry : Bool
  pub unknown_outcome : UnknownOutcomeBehavior
  pub idempotency_key : Symbol

pub data RetryError : Type 0 where
  jitter unknown_outcome negative_backoff classification attempts backoff_order no_class :
      RetryError
  symbol : SymbolError → RetryError

abbrev pub retry_tests : RetryPolicy → List (Bool × RetryError)
retry_tests q =
    (not (ltb (jitter_code q.jitter) 3), RetryError.jitter)
    ∷ (not (ltb (unknown_outcome_code q.unknown_outcome) 2), RetryError.unknown_outcome)
    ∷ (ltb_ℤ q.initial_backoff (pos 0) || ltb_ℤ q.max_backoff (pos 0), RetryError.negative_backoff)
    ∷ (any (λ c. not (ltb (classification_code c) 5)) q.retryable, RetryError.classification)
    ∷ []

abbrev pub enabled_retry_tests : RetryPolicy → List (Bool × RetryError)
enabled_retry_tests q =
    (q.enabled && ltb_ℤ q.max_attempts (pos 2), RetryError.attempts)
    ∷ (q.enabled && ltb_ℤ q.max_backoff q.initial_backoff, RetryError.backoff_order)
    ∷ (q.enabled && is_empty q.retryable, RetryError.no_class)
    ∷ []

-- `RetryPolicy.Validate`; the last tests are those of an enabled policy.
unfoldable pub validate_retry : RetryPolicy → Option RetryError
validate_retry q = or_else (guards (retry_tests q)) (
    or_else
      (elim (validate_given q.idempotency_key) [
        | some e ↦ some (RetryError.symbol e)
        | none ↦ none
      ])
      (guards (enabled_retry_tests q)))

abbrev pub default_retry_policy : RetryPolicy
default_retry_policy = record {
  enabled = false;
  max_attempts = pos 0;
  initial_backoff = pos 0;
  max_backoff = pos 0;
  jitter = JitterMode.no_jitter;
  retryable = [];
  respect_retry_after = false;
  partial_item_retry = false;
  unknown_outcome = UnknownOutcomeBehavior.no_retry;
  idempotency_key = no_symbol;
}

pub data FallbackMode : Type 0 where
  scalar batch_of_one parallel_scalar reject : FallbackMode
  undefined : ℕ → FallbackMode

abbrev pub fallback_mode_code : FallbackMode → ℕ
fallback_mode_code FallbackMode.scalar = 0
fallback_mode_code FallbackMode.batch_of_one = 1
fallback_mode_code FallbackMode.parallel_scalar = 2
fallback_mode_code FallbackMode.reject = 3
fallback_mode_code (FallbackMode.undefined n) = 4 + n

pub record FallbackPolicy : Type 0 where
  pub mode : FallbackMode
  pub max_scalar_concurrency : ℤ
  pub on_queue_overflow : Bool
  pub on_provider_unavailable : Bool
  pub on_unsupported_partition : Bool

pub data FallbackError : Type 0 where
  mode parallel_concurrency reject_concurrency negative : FallbackError

-- The tests of `FallbackPolicy.Validate` for a mode that is defined.
abbrev pub fallback_tests : FallbackMode → ℤ → List (Bool × FallbackError)
fallback_tests FallbackMode.parallel_scalar n =
    (ltb_ℤ n (pos 1), FallbackError.parallel_concurrency) ∷ []
fallback_tests FallbackMode.reject n = (not (is_zero n), FallbackError.reject_concurrency) ∷ []
fallback_tests _ n = (ltb_ℤ n (pos 0), FallbackError.negative) ∷ []

unfoldable pub validate_fallback : FallbackPolicy → Option FallbackError
validate_fallback q = guards (
    (not (ltb (fallback_mode_code q.mode) 4), FallbackError.mode)
    ∷ fallback_tests q.mode q.max_scalar_concurrency)

abbrev pub default_fallback_policy : FallbackPolicy
default_fallback_policy = record {
  mode = FallbackMode.scalar;
  max_scalar_concurrency = pos 0;
  on_queue_overflow = false;
  on_provider_unavailable = false;
  on_unsupported_partition = false;
}
