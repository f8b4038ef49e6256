-- ===== src/Proof/Examples.antt =====
-- Concrete obligations and strategies.
use batch_weaver.Base.{◌≡◌, refl, ◌↔◌, true, List, [], ◌∷◌, Option, none, some, All}
use batch_weaver.Proof.Obligation.{
  ObligationId, obligation_rank, satisfied, violated, unlisted, key_independent, target_resolved,
  read_category, proven_eligible, proven_ineligible, postponed,
}
use batch_weaver.Proof.Lattice.{
  ObligationResult, StrategyEligibility, insert_obligation, sort_onto, sort_obligations, status_in,
  collect, decide, strategy_status, has_status, is_ineligible, aggregate_decision,
}
use batch_weaver.Proof.Lattice.Laws.{
  is_clear, settled, strategy_status_eligible_iff, aggregate_decision_ineligible_iff,
}

abbrev required : List ObligationId
required = key_independent ∷ target_resolved ∷ read_category ∷ []

-- The target is unknown, for want of a result; the key depends on an earlier result.
abbrev results : ObligationId → Option ObligationResult
results id = elim id [
  | key_independent ↦ some (record { status = violated })
  | read_category ↦ some (record { status = satisfied })
  | _ ↦ none
]

abbrev strategies : List StrategyEligibility
strategies = record { status = postponed } ∷ record { status = proven_ineligible } ∷ []

blocked_by_violation : strategy_status required results ≡ (proven_ineligible, key_independent ∷ [])
unfolding strategy_status collect status_in decide sort_obligations sort_onto insert_obligation
blocked_by_violation = refl

sorted_required : sort_obligations required ≡ read_category ∷ target_resolved ∷ key_independent ∷ []
unfolding sort_obligations sort_onto insert_obligation obligation_rank
sorted_required = refl

strategy_status_eligible_iff_example :
    ((strategy_status required results).0 ≡ proven_eligible)
    ↔ (All (λ id. is_clear (status_in results id) ≡ true) required)
strategy_status_eligible_iff_example = strategy_status_eligible_iff required results

aggregate_decision_ineligible_iff_example :
    (aggregate_decision strategies ≡ proven_ineligible)
    ↔ ((settled strategies ≡ true) × (has_status is_ineligible strategies ≡ true))
aggregate_decision_ineligible_iff_example = aggregate_decision_ineligible_iff strategies

-- A result without a status counts for the strategy.
no_status :
    (strategy_status (key_independent ∷ []) (λ _. some (record { status = unlisted [] }))).0
    ≡ proven_eligible
unfolding strategy_status collect status_in decide
no_status = refl
