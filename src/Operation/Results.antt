-- ===== src/Operation/Results.antt =====
-- operation/result.go: what a response promises.
use batch_weaver.Base.{
  ℕ, ◌+◌, Bool, true, false, not, ◌&&◌, List, [], ◌∷◌, Option, none, some, ltb, ◌==◌, guards,
  if◌then◌else◌,
}

pub data ResultMode : Type 0 where
  ordered keyed sparse : ResultMode
  undefined : ℕ → ResultMode

abbrev pub result_mode_code : ResultMode → ℕ
result_mode_code ResultMode.ordered = 0
result_mode_code ResultMode.keyed = 1
result_mode_code ResultMode.sparse = 2
result_mode_code (ResultMode.undefined n) = 3 + n

pub data MissingBehavior : Type 0 where
  not_found error zero_value contract_violation : MissingBehavior
  undefined : ℕ → MissingBehavior

abbrev pub missing_code : MissingBehavior → ℕ
missing_code MissingBehavior.not_found = 0
missing_code MissingBehavior.error = 1
missing_code MissingBehavior.zero_value = 2
missing_code MissingBehavior.contract_violation = 3
missing_code (MissingBehavior.undefined n) = 4 + n

pub data ErrorMode : Type 0 where
  per_item global mixed : ErrorMode
  undefined : ℕ → ErrorMode

abbrev pub error_mode_code : ErrorMode → ℕ
error_mode_code ErrorMode.per_item = 0
error_mode_code ErrorMode.global = 1
error_mode_code ErrorMode.mixed = 2
error_mode_code (ErrorMode.undefined n) = 3 + n

pub data DuplicateResultBehavior : Type 0 where
  contract_violation first last custom : DuplicateResultBehavior
  undefined : ℕ → DuplicateResultBehavior

abbrev pub duplicate_code : DuplicateResultBehavior → ℕ
duplicate_code DuplicateResultBehavior.contract_violation = 0
duplicate_code DuplicateResultBehavior.first = 1
duplicate_code DuplicateResultBehavior.last = 2
duplicate_code DuplicateResultBehavior.custom = 3
duplicate_code (DuplicateResultBehavior.undefined n) = 4 + n

pub data UnexpectedResultBehavior : Type 0 where
  contract_violation error : UnexpectedResultBehavior
  undefined : ℕ → UnexpectedResultBehavior

abbrev pub unexpected_code : UnexpectedResultBehavior → ℕ
unexpected_code UnexpectedResultBehavior.contract_violation = 0
unexpected_code UnexpectedResultBehavior.error = 1
unexpected_code (UnexpectedResultBehavior.undefined n) = 2 + n

pub record ResultContract : Type 0 where
  pub mode : ResultMode
  pub missing : MissingBehavior
  pub error_mode : ErrorMode
  pub duplicate : DuplicateResultBehavior
  pub unexpected : UnexpectedResultBehavior
  pub order_significant : Bool
  pub unknown_representable : Bool

pub data ResultError : Type 0 where
  mode missing error_mode duplicate unexpected sparse_missing ordered_order : ResultError

-- The tests of `ResultContract.Validate`.
abbrev pub result_tests : ResultContract → List (Bool × ResultError)
result_tests c =
    (not (ltb (result_mode_code c.mode) 3), ResultError.mode)
    ∷ (not (ltb (missing_code c.missing) 4), ResultError.missing)
    ∷ (not (ltb (error_mode_code c.error_mode) 3), ResultError.error_mode)
    ∷ (not (ltb (duplicate_code c.duplicate) 4), ResultError.duplicate)
    ∷ (not (ltb (unexpected_code c.unexpected) 2), ResultError.unexpected)
    ∷ (
      (result_mode_code c.mode == result_mode_code ResultMode.sparse)
          && (missing_code c.missing == missing_code MissingBehavior.contract_violation),
      ResultError.sparse_missing,
    )
    ∷ (
      (result_mode_code c.mode == result_mode_code ResultMode.ordered) && not c.order_significant,
      ResultError.ordered_order,
    )
    ∷ []

unfoldable pub validate_result : ResultContract → Option ResultError
validate_result c = guards (result_tests c)

abbrev pub ordered_results : ResultContract
ordered_results = record {
  mode = ResultMode.ordered;
  missing = MissingBehavior.error;
  error_mode = ErrorMode.per_item;
  duplicate = DuplicateResultBehavior.contract_violation;
  unexpected = UnexpectedResultBehavior.contract_violation;
  order_significant = true;
  unknown_representable = false;
}

abbrev pub keyed_results : ResultContract
keyed_results = record ordered_results { mode = ResultMode.keyed; order_significant = false }

-- `SparseResults`, which panics on a missing behavior that its mode excludes.
abbrev pub sparse_results : MissingBehavior → Option ResultContract
sparse_results m =
    if missing_code m == missing_code MissingBehavior.contract_violation
    then none
    else some (record ordered_results {
      mode = ResultMode.sparse;
      missing = m;
      order_significant = false;
    })

abbrev pub with_error_mode : ErrorMode → ResultContract → ResultContract
with_error_mode m c = record c { error_mode = m }

abbrev pub with_duplicate : DuplicateResultBehavior → ResultContract → ResultContract
with_duplicate d c = record c { duplicate = d }

abbrev pub with_missing : MissingBehavior → ResultContract → ResultContract
with_missing m c = record c { missing = m }

abbrev pub with_unexpected : UnexpectedResultBehavior → ResultContract → ResultContract
with_unexpected u c = record c { unexpected = u }
