-- ===== src/Operation/Partitions.antt =====
-- operation/partition.go: how callers are kept apart.
use batch_weaver.Base.{
  ℕ, ◌+◌, Bool, true, false, not, ◌&&◌, ◌||◌, List, [], ◌∷◌, ◌++◌, Option, none, some, ℤ, pos,
  ltb_ℤ, Bytes, bytes_eq, ltb, ◌==◌, any, is_empty, length, guards, or_else, if◌then◌else◌,
}
use batch_weaver.Operation.Text.{is_lower, is_digit, contains, ends_with}
use batch_weaver.Operation.Id.{max_segment_bytes}

pub data Scope : Type 0 where
  request job graphql_operation session transaction process custom : Scope
  undefined : ℕ → Scope

abbrev pub scope_code : Scope → ℕ
scope_code Scope.request = 0
scope_code Scope.job = 1
scope_code Scope.graphql_operation = 2
scope_code Scope.session = 3
scope_code Scope.transaction = 4
scope_code Scope.process = 5
scope_code Scope.custom = 6
scope_code (Scope.undefined n) = 7 + n

pub data ReceiverPolicy : Type 0 where
  same_receiver any_receiver : ReceiverPolicy
  undefined : ℕ → ReceiverPolicy

abbrev pub receiver_code : ReceiverPolicy → ℕ
receiver_code ReceiverPolicy.same_receiver = 0
receiver_code ReceiverPolicy.any_receiver = 1
receiver_code (ReceiverPolicy.undefined n) = 2 + n

pub data MissingDimensionBehavior : Type 0 where
  error reject : MissingDimensionBehavior
  undefined : ℕ → MissingDimensionBehavior

abbrev pub missing_dimension_code : MissingDimensionBehavior → ℕ
missing_dimension_code MissingDimensionBehavior.error = 0
missing_dimension_code MissingDimensionBehavior.reject = 1
missing_dimension_code (MissingDimensionBehavior.undefined n) = 2 + n

abbrev pub dimension_receiver : Bytes
dimension_receiver = 114 ∷ 101 ∷ 99 ∷ 101 ∷ 105 ∷ 118 ∷ 101 ∷ 114 ∷ []

abbrev pub dimension_tenant : Bytes
dimension_tenant = 116 ∷ 101 ∷ 110 ∷ 97 ∷ 110 ∷ 116 ∷ []

abbrev pub dimension_authorization : Bytes
dimension_authorization =
    97 ∷ 117 ∷ 116 ∷ 104 ∷ 111 ∷ 114 ∷ 105 ∷ 122 ∷ 97 ∷ 116 ∷ 105 ∷ 111 ∷ 110 ∷ []

abbrev pub dimension_transaction : Bytes
dimension_transaction = 116 ∷ 114 ∷ 97 ∷ 110 ∷ 115 ∷ 97 ∷ 99 ∷ 116 ∷ 105 ∷ 111 ∷ 110 ∷ []

abbrev pub dimension_session : Bytes
dimension_session = 115 ∷ 101 ∷ 115 ∷ 115 ∷ 105 ∷ 111 ∷ 110 ∷ []

abbrev pub dimension_consistency : Bytes
dimension_consistency = 99 ∷ 111 ∷ 110 ∷ 115 ∷ 105 ∷ 115 ∷ 116 ∷ 101 ∷ 110 ∷ 99 ∷ 121 ∷ []

abbrev pub dimension_region : Bytes
dimension_region = 114 ∷ 101 ∷ 103 ∷ 105 ∷ 111 ∷ 110 ∷ []

abbrev pub dimension_encryption_context : Bytes
dimension_encryption_context =
    101 ∷ 110 ∷ 99 ∷ 114 ∷ 121 ∷ 112 ∷ 116 ∷ 105 ∷ 111 ∷ 110 ∷ 45 ∷ 99 ∷ 111 ∷ 110 ∷ 116 ∷ 101 ∷ 120
    ∷ 116 ∷ []

abbrev pub dimension_deadline_class : Bytes
dimension_deadline_class =
    100 ∷ 101 ∷ 97 ∷ 100 ∷ 108 ∷ 105 ∷ 110 ∷ 101 ∷ 45 ∷ 99 ∷ 108 ∷ 97 ∷ 115 ∷ 115 ∷ []

-- `knownDimensions`
abbrev pub known_dimensions : List Bytes
known_dimensions =
    dimension_receiver ∷ dimension_tenant ∷ dimension_authorization ∷ dimension_transaction
    ∷ dimension_session ∷ dimension_consistency ∷ dimension_region ∷ dimension_encryption_context
    ∷ dimension_deadline_class ∷ []

-- `reservedDimensionNames` that are not known dimensions: "custom" and "unknown".
abbrev pub reserved_dimensions : List Bytes
reserved_dimensions =
    (99 ∷ 117 ∷ 115 ∷ 116 ∷ 111 ∷ 109 ∷ []) ∷ (117 ∷ 110 ∷ 107 ∷ 110 ∷ 111 ∷ 119 ∷ 110 ∷ []) ∷ []

pub data DimensionError : Type 0 where
  empty too_long bad_character misplaced_hyphen reserved : DimensionError

-- The loop of `validateDimensionName` from index `i` on.
unfoldable pub is_dimension_from : ℕ → Bytes → Bool
is_dimension_from i [] = true
is_dimension_from i (c ∷ s) =
    (is_lower c || (ltb 0 i && (is_digit c || c == 45))) && is_dimension_from (i + 1) s

abbrev pub dimension_tests : Bytes → List (Bool × DimensionError)
dimension_tests name =
    (is_empty name, DimensionError.empty)
    ∷ (ltb max_segment_bytes (length name), DimensionError.too_long)
    ∷ (not (is_dimension_from 0 name), DimensionError.bad_character)
    ∷ (ends_with 45 name || contains (45 ∷ 45 ∷ []) name, DimensionError.misplaced_hyphen)
    ∷ []

-- `PartitionDimension.Validate`
unfoldable pub validate_dimension : Bytes → Option DimensionError
unfolding bytes_eq is_dimension_from
validate_dimension d =
    if any (bytes_eq d) known_dimensions
    then none
    else if any (bytes_eq d) reserved_dimensions
    then some DimensionError.reserved
    else guards (dimension_tests d)

pub record PartitionContract : Type 0 where
  pub scope : Scope
  pub required : List Bytes
  pub optional : List Bytes
  pub cross_root_scope : Bool
  pub receiver_policy : ReceiverPolicy
  pub missing_dimension : MissingDimensionBehavior
  pub max_active_partitions : ℤ
  pub public_context_indep : Bool

pub data PartitionError : Type 0 where
  scope receiver_policy missing_dimension negative duplicate process_scope : PartitionError
  dimension : DimensionError → PartitionError

-- The loop of `PartitionContract.Validate` over the dimensions, `seen` being those behind it.
unfoldable pub check_dimensions : List Bytes → List Bytes → Option PartitionError
unfolding validate_dimension
check_dimensions seen [] = none
check_dimensions seen (d ∷ ds) =
    or_else
      (elim (validate_dimension d) [ some e ↦ some (PartitionError.dimension e) | none ↦ none ])
      (or_else (guards ((any (bytes_eq d) seen, PartitionError.duplicate) ∷ []))
        (check_dimensions (d ∷ seen) ds))

-- `requires`
abbrev pub requires : PartitionContract → Bytes → Bool
requires c d = any (bytes_eq d) c.required

abbrev pub partition_tests : PartitionContract → List (Bool × PartitionError)
partition_tests c =
    (not (ltb (scope_code c.scope) 7), PartitionError.scope)
    ∷ (not (ltb (receiver_code c.receiver_policy) 2), PartitionError.receiver_policy)
    ∷ (not (ltb (missing_dimension_code c.missing_dimension) 2), PartitionError.missing_dimension)
    ∷ (ltb_ℤ c.max_active_partitions (pos 0), PartitionError.negative)
    ∷ []

abbrev pub process_tests : PartitionContract → List (Bool × PartitionError)
process_tests c =
    (
      ((scope_code c.scope == scope_code Scope.process) && not c.public_context_indep)
          && (not (requires c dimension_authorization) || not (requires c dimension_tenant)),
      PartitionError.process_scope,
    )
    ∷ []

unfoldable pub validate_partition : PartitionContract → Option PartitionError
unfolding check_dimensions
validate_partition c =
    or_else (guards (partition_tests c))
      (or_else (check_dimensions [] (c.required ++ c.optional)) (guards (process_tests c)))

-- `NewPartitionContract`
abbrev pub new_partition_contract : Scope → List Bytes → List Bytes → PartitionContract
new_partition_contract s required_ones optional_ones = record {
  scope = s;
  required = required_ones;
  optional = optional_ones;
  cross_root_scope = false;
  receiver_policy = ReceiverPolicy.same_receiver;
  missing_dimension = MissingDimensionBehavior.error;
  max_active_partitions = pos 0;
  public_context_indep = false;
}

abbrev pub with_cross_root_scope : PartitionContract → PartitionContract
with_cross_root_scope c = record c { cross_root_scope = true }

abbrev pub with_receiver_policy : ReceiverPolicy → PartitionContract → PartitionContract
with_receiver_policy p c = record c { receiver_policy = p }

abbrev pub with_max_active_partitions : ℤ → PartitionContract → PartitionContract
with_max_active_partitions n c = record c { max_active_partitions = n }

abbrev pub with_public_context_independent : PartitionContract → PartitionContract
with_public_context_independent c = record c { public_context_indep = true }
