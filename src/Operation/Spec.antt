-- ===== src/Operation/Spec.antt =====
-- operation/spec.go and operation/validation.go: an operation's declaration and its validation. The
-- text of diagnostics is left out; their codes, all of them errors, are what is collected.
pub mod Laws
use batch_weaver.Base.{
  ◌≡◌, Bool, true, false, not, ◌&&◌, ◌||◌, List, [], ◌∷◌, ◌++◌, Option, none, some, Bytes, ◌==◌,
  is_empty, if◌then◌else◌, Result, ok, err,
}
use batch_weaver.Operation.Id.{IdError, validate_id}
use batch_weaver.Operation.Symbol.{Symbol, SymbolError, no_symbol, is_no_symbol, validate_symbol}
use batch_weaver.Operation.Kind.{Kind, Idempotency, kind_code, idempotency_code}
use batch_weaver.Operation.Semantics.{Semantics, SemanticsError, validate_semantics}
use batch_weaver.Operation.Results.{
  ErrorMode, error_mode_code, ResultContract, ResultError, validate_result, ordered_results,
}
use batch_weaver.Operation.Partitions.{
  Scope, PartitionContract, PartitionError, requires, dimension_transaction, dimension_session,
  validate_partition, new_partition_contract,
}
use batch_weaver.Operation.Contracts.{
  KeyContract, validate_key, Extension, ExtensionError, validate_extension,
}
use batch_weaver.Operation.Policies.{
  SchedulerPolicy, SchedulerError, validate_scheduler, default_scheduler_policy,
  DeduplicationPolicy, DeduplicationError, is_dedup_enabled, validate_deduplication,
  default_deduplication_policy, RetryPolicy, RetryError, validate_retry, default_retry_policy,
  FallbackPolicy, FallbackError, FallbackMode, fallback_mode_code, validate_fallback,
  default_fallback_policy,
}

pub record Spec : Type 0 where
  pub id : Bytes
  pub semantics : Semantics
  pub scalar_symbol : Symbol
  pub batch_symbol : Symbol
  pub key_contract : KeyContract
  pub result_contract : ResultContract
  pub partition_contract : PartitionContract
  pub scheduler_policy : SchedulerPolicy
  pub deduplication_policy : DeduplicationPolicy
  pub retry_policy : RetryPolicy
  pub fallback_policy : FallbackPolicy
  pub extensions : List Extension

-- BWOP001 to BWOP016, with the cause where there is one.
pub data Finding : Type 0 where
  invalid_id : IdError → Finding
  invalid_semantics : SemanticsError → Finding
  invalid_result : ResultError → Finding
  invalid_partition : PartitionError → Finding
  invalid_scheduler : SchedulerError → Finding
  invalid_dedup : DeduplicationError → Finding
  invalid_retry : RetryError → Finding
  invalid_fallback : FallbackError → Finding
  invalid_key_contract : SymbolError → Finding
  invalid_extension : ExtensionError → Finding
  partition_semantics dedup_incompatible retry_incompatible fallback_incompatible : Finding
  missing_symbols : Finding
  invalid_symbol : SymbolError → Finding

-- Everything that is added, in order.
abbrev pub collect : List (List Finding) → List Finding
collect [] = []
collect (x ∷ xs) = x ++ collect xs

-- `if err := ...; err != nil { add(code, ...) }`
abbrev pub add_error : {E : Type 0} → (E → Finding) → Option E → List Finding
add_error f none = []
add_error f (some e) = f e ∷ []

-- `if test { add(code, ...) }`, for each test in order.
abbrev pub add_failing : List (Bool × Finding) → List Finding
add_failing [] = []
add_failing (x ∷ xs) = if x.0 then x.1 ∷ add_failing xs else add_failing xs

abbrev pub check_extensions : List Extension → List Finding
check_extensions [] = []
check_extensions (e ∷ es) =
    add_error invalid_extension (validate_extension e) ++ check_extensions es

abbrev pub check_symbol : Symbol → List Finding
check_symbol s = if is_no_symbol s then [] else add_error invalid_symbol (validate_symbol s)

-- `ConfigBased`
unfoldable pub is_config_based : Spec → Bool
is_config_based s = not (is_no_symbol s.scalar_symbol) || not (is_no_symbol s.batch_symbol)

abbrev pub is_kind : Semantics → Kind → Bool
is_kind s k = kind_code s.kind == kind_code k

abbrev pub is_idempotency : Semantics → Idempotency → Bool
is_idempotency s i = idempotency_code s.idempotency == idempotency_code i

abbrev pub is_fallback : Spec → FallbackMode → Bool
is_fallback s m = fallback_mode_code s.fallback_policy.mode == fallback_mode_code m

-- The tests of `validateCrossField`.
abbrev pub cross_tests : Spec → List (Bool × Finding)
cross_tests s =
    let sem = s.semantics in
    let part = s.partition_contract in
    let retry = s.retry_policy in
    let mode = error_mode_code s.result_contract.error_mode in
    (
      is_config_based s && (is_no_symbol s.scalar_symbol || is_no_symbol s.batch_symbol),
      missing_symbols,
    )
    ∷ (
      is_kind sem Kind.transaction_bound && not (requires part dimension_transaction),
      partition_semantics,
    )
    ∷ (is_kind sem Kind.session_bound && not (requires part dimension_session), partition_semantics)
    ∷ (is_dedup_enabled s.deduplication_policy && not sem.deduplication_allowed, dedup_incompatible)
    ∷ (retry.enabled && not sem.retry_allowed, retry_incompatible)
    ∷ (retry.enabled && is_idempotency sem Idempotency.non_idempotent, retry_incompatible)
    ∷ (
      retry.enabled
          && (is_idempotency sem Idempotency.conditional && is_no_symbol retry.idempotency_key),
      retry_incompatible,
    )
    ∷ (
      retry.partial_item_retry
          && (not (mode == error_mode_code ErrorMode.per_item)
              && not (mode == error_mode_code ErrorMode.mixed)),
      retry_incompatible,
    )
    ∷ (
      is_fallback s FallbackMode.parallel_scalar && is_idempotency sem Idempotency.non_idempotent,
      fallback_incompatible,
    )
    ∷ (
      (is_fallback s FallbackMode.parallel_scalar || is_fallback s FallbackMode.scalar)
          && (is_config_based s && is_no_symbol s.scalar_symbol),
      fallback_incompatible,
    )
    ∷ []

unfoldable pub validate_cross_field : Spec → List Finding
unfolding is_config_based is_dedup_enabled
validate_cross_field s = add_failing (cross_tests s)

abbrev pub field_findings : Spec → List (List Finding)
field_findings s =
    add_error invalid_id (validate_id s.id)
    ∷ add_error invalid_semantics (validate_semantics s.semantics)
    ∷ add_error invalid_key_contract (validate_key s.key_contract)
    ∷ add_error invalid_result (validate_result s.result_contract)
    ∷ add_error invalid_partition (validate_partition s.partition_contract)
    ∷ add_error invalid_scheduler (validate_scheduler s.scheduler_policy)
    ∷ add_error invalid_dedup (validate_deduplication s.deduplication_policy)
    ∷ add_error invalid_retry (validate_retry s.retry_policy)
    ∷ add_error invalid_fallback (validate_fallback s.fallback_policy)
    ∷ check_extensions s.extensions
    ∷ check_symbol s.scalar_symbol
    ∷ check_symbol s.batch_symbol
    ∷ validate_cross_field s
    ∷ []

-- `Validate`
unfoldable pub validate : Spec → List Finding
unfolding validate_cross_field
validate s = collect (field_findings s)

-- `ValidationError` is nil.
abbrev pub IsValid : Spec → Type 0
IsValid s = validate s ≡ []

abbrev pub default_spec : Bytes → Semantics → Spec
default_spec id semantics = record {
  id = id;
  semantics = semantics;
  scalar_symbol = no_symbol;
  batch_symbol = no_symbol;
  key_contract = record { comparable = false; canonical_key_symbol = no_symbol };
  result_contract = ordered_results;
  partition_contract = new_partition_contract Scope.request [] [];
  scheduler_policy = default_scheduler_policy;
  deduplication_policy = default_deduplication_policy;
  retry_policy = default_retry_policy;
  fallback_policy = default_fallback_policy;
  extensions = [];
}

-- The options of `NewSpec`, in order.
abbrev pub apply_options : List (Spec → Spec) → Spec → Spec
apply_options [] s = s
apply_options (o ∷ os) s = apply_options os (o s)

unfoldable pub new_spec : Bytes → Semantics → List (Spec → Spec) → Result (List Finding) Spec
unfolding validate
new_spec id semantics options =
    let s = apply_options options (default_spec id semantics) in
    if is_empty (validate s) then ok s else err (validate s)
