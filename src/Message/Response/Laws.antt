-- ===== src/Message/Response/Laws.antt =====
-- What a response that `ValidateAgainst` accepts promises (response.go).
use batch_weaver.Base.{
  ℕ, suc, ◌≡◌, refl, ◌↔◌, true, false, List, [], ◌∷◌, none, some, arith, All, Bool-cases, inl, inr,
}
use batch_weaver.Message.Ids.{
  mem, Distinct, Apart, Apart-cons, cons-Apart, Apart-nil, Within, Within-mem,
}
use batch_weaver.Message.Response.{
  Outcome, BatchResponse, validate_outcome, outcome_ids, check_outcomes, validate_response,
  check_expected, check_answered, validate_against, by_id,
}

module _ {V E : Type 0} where
  abbrev pub IsWellFormed : List ℕ → List (Outcome V E) → Type 0
  IsWellFormed seen os =
      All (λ o. validate_outcome o ≡ none) os
      × Distinct (outcome_ids os)
      × Apart (outcome_ids os) seen

  check_outcomes_iff :
      (i : ℕ) (seen : List ℕ) (os : List (Outcome V E))
      → (check_outcomes i seen os ≡ none) ↔ IsWellFormed seen os
  unfolding check_outcomes
  check_outcomes_iff i seen [] = (λ h. (tt, tt, tt), λ h. refl)
  check_outcomes_iff i seen (o ∷ os) = (
    λ h. ground (
      arith,
      (check_outcomes_iff (suc i) (o.request_id ∷ seen) os).0,
      Apart-cons o.request_id (outcome_ids os) seen,
    ),
    λ h. ground (
      arith,
      (check_outcomes_iff (suc i) (o.request_id ∷ seen) os).1,
      cons-Apart o.request_id (outcome_ids os) seen,
    ),
  )

  check_expected_iff :
      (want : List ℕ) (os : List (Outcome V E))
      → (check_expected want os ≡ none) ↔ Within (outcome_ids os) want
  unfolding check_expected
  check_expected_iff want [] = (λ h. tt, λ h. refl)
  check_expected_iff want (o ∷ os) = (
    λ h. ground (arith, (check_expected_iff want os).0),
    λ h. ground (arith, (check_expected_iff want os).1),
  )

check_answered_iff : (got want : List ℕ) → (check_answered got want ≡ none) ↔ Within want got
unfolding check_answered
check_answered_iff got [] = (λ h. tt, λ h. refl)
check_answered_iff got (id ∷ want) = (
  λ h. ground (arith, (check_answered_iff got want).0),
  λ h. ground (arith, (check_answered_iff got want).1),
)

module _ {V E : Type 0} where
  -- A response is accepted exactly when each outcome is valid, no identifier is answered twice,
  -- every answer was asked for and every request is answered.
  pub validate_against_iff :
      (r : BatchResponse V E) (ids : List ℕ)
      → (validate_against r ids ≡ none) ↔ (
          All (λ o. validate_outcome o ≡ none) r.outcomes
          × Distinct (outcome_ids r.outcomes)
          × Within (outcome_ids r.outcomes) ids
          × Within ids (outcome_ids r.outcomes))
  unfolding validate_against validate_response
  validate_against_iff r ids = (
    λ h. ground (
      arith,
      (check_outcomes_iff 0 [] r.outcomes).0,
      (check_expected_iff ids r.outcomes).0,
      (check_answered_iff (outcome_ids r.outcomes) ids).0,
    ),
    λ h. ground (
      arith,
      (check_outcomes_iff 0 [] r.outcomes).1 (h.0, h.1, Apart-nil _),
      (check_expected_iff ids r.outcomes).1 h.2,
      (check_answered_iff (outcome_ids r.outcomes) ids).1 h.3,
    ),
  )

  by_id-none :
      (id : ℕ) (os : List (Outcome V E)) → mem id (outcome_ids os) ≡ false → by_id id os ≡ none
  unfolding by_id
  by_id-none id [] h = refl
  by_id-none id (o ∷ os) h = ground (arith, by_id-none id os)

  by_id-mem :
      (id : ℕ) (os : List (Outcome V E))
      → mem id (outcome_ids os) ≡ true
      → (o : Outcome V E) × (by_id id os ≡ some o) × (o.request_id ≡ id)
  unfolding by_id
  by_id-mem id [] h = ground arith
  by_id-mem id (o ∷ os) h = elim (Bool-cases (mem id (outcome_ids os))) [
    | inl later ↦ let (p, e, q) = by_id-mem id os later in (p, rw (e, by_id), q)
    | inr last ↦ (o, ground (arith, by_id-none id os last), ground arith)
  ]

  All-by_id :
      (id : ℕ) (os : List (Outcome V E)) {o : Outcome V E}
      → All (λ p. validate_outcome p ≡ none) os
      → by_id id os ≡ some o
      → validate_outcome o ≡ none
  unfolding by_id
  All-by_id id [] a h = cc
  All-by_id id (p ∷ os) {o} a h = ground (arith, All-by_id id os {o = o} a.1)

  -- When a response is accepted for some requests, `distribute` finds for each of them an outcome
  -- with its identifier, and that outcome is valid.
  pub by_id-validate_against :
      (r : BatchResponse V E) (ids : List ℕ) (id : ℕ)
      → validate_against r ids ≡ none
      → mem id ids ≡ true
      → (o : Outcome V E) × (by_id id r.outcomes ≡ some o)
        × (o.request_id ≡ id)
        × (validate_outcome o ≡ none)
  by_id-validate_against r ids id h m =
      let (valid, _, _, answered) = (validate_against_iff r ids).0 h in
      let (o, e, q) =
        by_id-mem id r.outcomes (Within-mem id ids (outcome_ids r.outcomes) answered m) in
      (o, e, q, All-by_id id r.outcomes valid e)
