-- ===== src/Message/Response.antt =====
-- response.go: per-item outcomes, and the validation of a response against the requested
-- identifiers. `E` stands for Go's error values, and a nil error is `none`.
pub mod Laws
use batch_weaver.Base.{
  ℕ, suc, ◌≡◌, refl, ◌↔◌, Bool, true, false, not, ◌&&◌, List, [], ◌∷◌, Option, none, some, Result,
  ok, err, arith, ◌==◌, All, length, find, if◌then◌else◌, Bool-cases, inl, inr, Option-cases,
}
use batch_weaver.Message.{is_valid}
use batch_weaver.Message.Ids.{
  mem, Distinct, Apart, Apart-cons, cons-Apart, Apart-nil, Within, Within-mem,
}

pub record Outcome (V E : Type 0) : Type 0 where
  pub request_id : ℕ
  pub value : Option V
  pub error : Option E
  pub found : Bool

pub data OutcomeError : Type 0 where
  zero_request_id found_and_failed : OutcomeError

pub data ResponseError : Type 0 where
  invalid_outcome : ℕ → OutcomeError → ResponseError
  duplicate_request_id unexpected_request_id missing_request_id : ℕ → ResponseError

pub record BatchResponse (V E : Type 0) : Type 0 where
  pub outcomes : List (Outcome V E)

abbrev pub is_some {ℓ} : {A : Type ℓ} → Option A → Bool
is_some none = false
is_some (some _) = true

module _ {V E : Type 0} where
  unfoldable pub success : ℕ → V → Outcome V E
  success id v = record { request_id = id; value = some v; error = none; found = true }

  unfoldable pub not_found : ℕ → Outcome V E
  not_found id = record { request_id = id; value = none; error = none; found = false }

  unfoldable pub failure : ℕ → E → Outcome V E
  failure id e = record { request_id = id; value = none; error = some e; found = false }

  unfoldable pub validate_outcome : Outcome V E → Option OutcomeError
  unfolding is_valid
  validate_outcome o =
      if not (is_valid o.request_id)
      then some zero_request_id
      else if is_some o.error && o.found
      then some found_and_failed
      else none

  unfoldable pub is_success : Outcome V E → Bool
  is_success o = o.found && not (is_some o.error)

  unfoldable pub is_not_found : Outcome V E → Bool
  is_not_found o = not o.found && not (is_some o.error)

  unfoldable pub is_failure : Outcome V E → Bool
  is_failure o = is_some o.error

  -- The loop of `NewBatchResponse` from index `i`: duplicates are not looked for.
  unfoldable pub check_each : ℕ → List (Outcome V E) → Option ResponseError
  check_each i [] = none
  check_each i (o ∷ os) = elim (validate_outcome o) [
    | some e ↦ some (invalid_outcome i e)
    | none ↦ check_each (suc i) os
  ]

  unfoldable pub new_batch_response : List (Outcome V E) → Result ResponseError (BatchResponse V E)
  unfolding check_each
  new_batch_response os = elim (check_each 0 os) [
    | some e ↦ err e
    | none ↦ ok (record { outcomes = os })
  ]

  abbrev pub outcome_ids : List (Outcome V E) → List ℕ
  outcome_ids [] = []
  outcome_ids (o ∷ os) = o.request_id ∷ outcome_ids os

  -- The loop of `Validate`.
  unfoldable pub check_outcomes : ℕ → List ℕ → List (Outcome V E) → Option ResponseError
  check_outcomes i seen [] = none
  check_outcomes i seen (o ∷ os) = elim (validate_outcome o) [
    | some e ↦ some (invalid_outcome i e)
    | none ↦
        if mem o.request_id seen
        then some (duplicate_request_id o.request_id)
        else check_outcomes (suc i) (o.request_id ∷ seen) os
  ]

  unfoldable pub validate_response : BatchResponse V E → Option ResponseError
  unfolding check_outcomes
  validate_response r = check_outcomes 0 [] r.outcomes

  -- The first loop of `ValidateAgainst`: every outcome was asked for.
  unfoldable pub check_expected : List ℕ → List (Outcome V E) → Option ResponseError
  check_expected want [] = none
  check_expected want (o ∷ os) =
      if mem o.request_id want
      then check_expected want os
      else some (unexpected_request_id o.request_id)

-- Its second loop: every request is answered. (Go walks the set in any order, so which missing
-- identifier is named is not determined; here it is the first asked for.)
unfoldable pub check_answered : List ℕ → List ℕ → Option ResponseError
check_answered got [] = none
check_answered got (id ∷ want) =
    if mem id got then check_answered got want else some (missing_request_id id)

module _ {V E : Type 0} where
  unfoldable pub validate_against : BatchResponse V E → List ℕ → Option ResponseError
  unfolding validate_response check_expected check_answered
  validate_against r ids = elim (validate_response r) [
    | some e ↦ some e
    | none ↦ elim (check_expected ids r.outcomes) [
      | some e ↦ some e
      | none ↦ check_answered (outcome_ids r.outcomes) ids
    ]
  ]

  -- `byID` of `distribute`: a map filled in order, so the last outcome of an identifier stays.
  unfoldable pub by_id : ℕ → List (Outcome V E) → Option (Outcome V E)
  by_id id [] = none
  by_id id (o ∷ os) = elim (by_id id os) [
    | some p ↦ some p
    | none ↦ if o.request_id == id then some o else none
  ]
