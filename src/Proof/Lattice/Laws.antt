-- ===== src/Proof/Lattice/Laws.antt =====
-- What the decisions of internal/proof/lattice.go mean, and the order of the obligations reported.
use batch_weaver.Base.{
  ◌≡◌, ◌↔◌, refl, Bool, true, false, not, ◌&&◌, List, [], ◌∷◌, Option, is_empty, All, any, arith,
}
use batch_weaver.Proof.Obligation.{
  ObligationId, ObligationStatus, Decision, satisfied, violated, not_applicable, unlisted,
  proven_eligible, proven_ineligible, postponed,
}
use batch_weaver.Proof.Lattice.{
  ObligationResult, StrategyEligibility, Blocking, status_in, collect, decide, strategy_status,
  has_status, is_eligible, is_ineligible, is_assumption, is_undecided, is_postponed,
  aggregate_decision,
}

-- An obligation that does not stand against a strategy: a status that is no constant does not.
abbrev pub is_clear : ObligationStatus → Bool
is_clear s = elim s [ satisfied ↦ true | not_applicable ↦ true | unlisted _ ↦ true | _ ↦ false ]

abbrev pub is_violated : ObligationStatus → Bool
is_violated s = elim s [ violated ↦ true | _ ↦ false ]

abbrev is_vacant : Blocking → Bool
is_vacant b =
    is_empty b.violations && is_empty b.unknowns && is_empty b.needs && is_empty b.deferrals

is_vacant-collect :
    (results : ObligationId → Option ObligationResult) (ids : List ObligationId)
    → (is_vacant (collect results ids) ≡ true)
      ↔ (All (λ id. is_clear (status_in results id) ≡ true) ids)
unfolding collect
is_vacant-collect results [] = ground arith
is_vacant-collect results (id ∷ ids) = ground (arith, is_vacant-collect results ids)

-- A strategy is proven eligible exactly when every obligation that it requires has a result, whose
-- status is satisfied or not applicable or none of the statuses that are declared: a string that is
-- no status does not stand against it.
pub strategy_status_eligible_iff :
    (required : List ObligationId) (results : ObligationId → Option ObligationResult)
    → ((strategy_status required results).0 ≡ proven_eligible)
      ↔ (All (λ id. is_clear (status_in results id) ≡ true) required)
unfolding strategy_status decide
strategy_status_eligible_iff required results = ground (arith, is_vacant-collect results required)

any_violated-collect :
    (results : ObligationId → Option ObligationResult) (ids : List ObligationId)
    → not (is_empty (collect results ids).violations)
      ≡ any (λ id. is_violated (status_in results id)) ids
unfolding collect
any_violated-collect results [] = refl
any_violated-collect results (id ∷ ids) = ground (arith, any_violated-collect results ids)

-- A strategy is proven ineligible exactly when some obligation that it requires is violated,
-- whatever the other obligations say.
pub strategy_status_ineligible_iff :
    (required : List ObligationId) (results : ObligationId → Option ObligationResult)
    → ((strategy_status required results).0 ≡ proven_ineligible)
      ↔ (any (λ id. is_violated (status_in results id)) required ≡ true)
unfolding strategy_status decide
strategy_status_ineligible_iff required results =
    ground (arith, any_violated-collect results required)

-- A candidate is proven eligible exactly when one of its strategies is.
pub aggregate_decision_eligible_iff :
    (ss : List StrategyEligibility)
    → (aggregate_decision ss ≡ proven_eligible) ↔ (has_status is_eligible ss ≡ true)
unfolding aggregate_decision has_status
aggregate_decision_eligible_iff [] = ground arith
aggregate_decision_eligible_iff (s ∷ ss) = ground arith

abbrev pub is_rest : Decision → Bool
is_rest d = elim d [ postponed ↦ true | proven_ineligible ↦ true | _ ↦ false ]

abbrev pub settled : List StrategyEligibility → Bool
settled [] = true
settled (s ∷ ss) = is_rest s.status && settled ss

settled-has_status :
    (ss : List StrategyEligibility)
    → settled ss ≡ (
        not (has_status is_eligible ss)
        && not (has_status is_assumption ss)
        && not (has_status is_undecided ss))
unfolding has_status
settled-has_status [] = refl
settled-has_status (s ∷ ss) = ground (arith, settled-has_status ss)

ineligible_or_postponed :
    (s : StrategyEligibility) (ss : List StrategyEligibility)
    → settled (s ∷ ss) ≡ true
    → (has_status is_postponed (s ∷ ss) && not (has_status is_ineligible (s ∷ ss)))
      ≡ not (has_status is_ineligible (s ∷ ss))
unfolding has_status
ineligible_or_postponed s ss h = ground (arith, h)

-- A candidate is proven ineligible exactly when every one of its strategies is ineligible or
-- deferred and one of them is ineligible: a deferred strategy does not keep it from being so.
pub aggregate_decision_ineligible_iff :
    (ss : List StrategyEligibility)
    → (aggregate_decision ss ≡ proven_ineligible)
      ↔ ((settled ss ≡ true) × (has_status is_ineligible ss ≡ true))
unfolding aggregate_decision
aggregate_decision_ineligible_iff [] = ground arith
aggregate_decision_ineligible_iff (s ∷ ss) =
    ground (arith, settled-has_status (s ∷ ss), ineligible_or_postponed s ss)
