-- ===== src/Operation/Examples.antt =====
-- Concrete identifiers, symbols and specifications.
use batch_weaver.Base.{◌≡◌, refl, ◌↔◌, ◌⊎◌, true, false, [], ◌∷◌, pos, Bytes, bytes_eq, ok}
use batch_weaver.Operation.Text.{split, after_prefix, cut, contains, ends_with}
use batch_weaver.Operation.Id.{
  check_characters, validate_segment, check_segments, validate_id, parse_id,
}
use batch_weaver.Operation.Id.Laws.{IsId, parse_id_iff}
use batch_weaver.Operation.Symbol.{
  Symbol, is_no_symbol, check_path_segments, validate_import_path, is_identifier_from,
  validate_go_identifier, parse_method_symbol, parse_symbol, print_symbol,
}
use batch_weaver.Operation.Symbol.Laws.{print_symbol-parse_symbol}
use batch_weaver.Operation.Kind.{Kind, Idempotency, kind_effect}
use batch_weaver.Operation.Semantics.{validate_semantics, read_only, transaction_bound}
use batch_weaver.Operation.Results.{validate_result}
use batch_weaver.Operation.Partitions.{
  Scope, validate_dimension, check_dimensions, requires, dimension_transaction, dimension_session,
  dimension_authorization, dimension_tenant, validate_partition, new_partition_contract,
}
use batch_weaver.Operation.Contracts.{validate_key}
use batch_weaver.Operation.Policies.{
  RetryClassification, default_retry_policy, validate_scheduler, is_dedup_enabled,
  validate_deduplication, validate_retry, validate_fallback,
}
use batch_weaver.Operation.Spec.{
  Spec, is_config_based, is_kind, is_idempotency, validate_cross_field, validate, IsValid,
  default_spec,
}
use batch_weaver.Operation.Spec.Laws.{is_private_process, validate-retry, validate-isolation}

-- "users.get"
abbrev users_get : Bytes
users_get = 117 ∷ 115 ∷ 101 ∷ 114 ∷ 115 ∷ 46 ∷ 103 ∷ 101 ∷ 116 ∷ []

parse_id_iff_example : (parse_id users_get ≡ ok users_get) ↔ IsId users_get
parse_id_iff_example = parse_id_iff users_get

-- "a.c/b.(*T).F"
abbrev method_text : Bytes
method_text = 97 ∷ 46 ∷ 99 ∷ 47 ∷ 98 ∷ 46 ∷ 40 ∷ 42 ∷ 84 ∷ 41 ∷ 46 ∷ 70 ∷ []

abbrev method : Symbol
method = record {
  import_path = 97 ∷ 46 ∷ 99 ∷ 47 ∷ 98 ∷ [];
  receiver = 84 ∷ [];
  name = 70 ∷ [];
  pointer = true;
}

method_parsed : parse_symbol method_text ≡ ok method
unfolding parse_symbol parse_method_symbol cut after_prefix contains validate_import_path
    check_path_segments split bytes_eq validate_go_identifier is_identifier_from
method_parsed = refl

print_symbol-parse_symbol_example : print_symbol method ≡ method_text
print_symbol-parse_symbol_example = print_symbol-parse_symbol method_text method method_parsed

-- A read that retries timeouts.
abbrev retrying : Spec
retrying = record (default_spec users_get read_only) {
  retry_policy = record default_retry_policy {
    enabled = true;
    max_attempts = pos 3;
    retryable = RetryClassification.timeout ∷ [];
  };
}

retrying-IsValid : IsValid retrying
unfolding validate validate_cross_field is_config_based is_dedup_enabled is_no_symbol validate_id
    check_segments validate_segment check_characters split ends_with contains cut after_prefix
    bytes_eq validate_semantics kind_effect validate_key validate_result validate_partition
    check_dimensions validate_scheduler validate_deduplication validate_retry validate_fallback
retrying-IsValid = refl

validate-retry_example :
    (true ≡ true)
    × (is_idempotency read_only Idempotency.non_idempotent ≡ false)
    × ((is_idempotency read_only Idempotency.conditional ≡ false)
        ⊎ (is_no_symbol retrying.retry_policy.idempotency_key ≡ false))
validate-retry_example = validate-retry retrying retrying-IsValid refl

-- A transaction's write, kept apart by transaction.
abbrev transactional : Spec
transactional = record (default_spec users_get transaction_bound) {
  partition_contract = new_partition_contract Scope.transaction (dimension_transaction ∷ []) [];
}

transactional-IsValid : IsValid transactional
unfolding validate validate_cross_field is_config_based is_dedup_enabled is_no_symbol validate_id
    check_segments validate_segment check_characters split ends_with contains cut after_prefix
    bytes_eq validate_semantics kind_effect validate_key validate_result validate_partition
    check_dimensions validate_dimension validate_scheduler validate_deduplication validate_retry
    validate_fallback
transactional-IsValid = refl

validate-isolation_example :
    let c = transactional.partition_contract in
    ((is_kind transaction_bound Kind.transaction_bound ≡ false)
      ⊎ (requires c dimension_transaction ≡ true))
    × ((is_kind transaction_bound Kind.session_bound ≡ false)
        ⊎ (requires c dimension_session ≡ true))
    × ((is_private_process c ≡ false)
        ⊎ ((requires c dimension_authorization ≡ true) × (requires c dimension_tenant ≡ true)))
validate-isolation_example = validate-isolation transactional transactional-IsValid
