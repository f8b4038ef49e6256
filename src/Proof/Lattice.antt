-- ===== src/Proof/Lattice.antt =====
-- internal/proof/lattice.go: `strategyStatus`, `aggregateDecision` and `sortObligations`.
pub mod Laws
pub mod Sorting
use batch_weaver.Base.{
  ℕ, ltb, Bool, true, false, not, ◌&&◌, List, [], ◌∷◌, Option, none, some, is_empty, if◌then◌else◌,
}
use batch_weaver.Proof.Obligation.{
  ObligationId, ObligationStatus, Decision, obligation_rank, satisfied, violated, needs_assumption,
  unknown, not_applicable, deferred, unlisted, proven_eligible, proven_ineligible,
  requires_assumption, undecided, postponed,
}

-- `ObligationResult`, as far as the lattice reads it.
pub record ObligationResult : Type 0 where
  pub status : ObligationStatus

-- `StrategyEligibility`, as far as the lattice reads it.
pub record StrategyEligibility : Type 0 where
  pub status : Decision

-- One step of the insertion sort: the prefix is sorted already, so the element that the swaps move
-- left stops behind the last one of no higher rank.
unfoldable pub insert_obligation : ObligationId → List ObligationId → List ObligationId
insert_obligation x [] = x ∷ []
insert_obligation x (y ∷ ys) =
    if ltb (obligation_rank x) (obligation_rank y) then x ∷ y ∷ ys else y ∷ insert_obligation x ys

unfoldable pub sort_onto : List ObligationId → List ObligationId → List ObligationId
sort_onto sorted [] = sorted
sort_onto sorted (x ∷ xs) = sort_onto (insert_obligation x sorted) xs

unfoldable pub sort_obligations : List ObligationId → List ObligationId
unfolding sort_onto
sort_obligations ids = sort_onto [] ids

-- The four slices that `strategyStatus` collects.
pub record Blocking : Type 0 where
  pub violations : List ObligationId
  pub unknowns : List ObligationId
  pub needs : List ObligationId
  pub deferrals : List ObligationId

-- A required obligation without a result is unknown.
unfoldable pub status_in :
    (ObligationId → Option ObligationResult) → ObligationId → ObligationStatus
status_in results id = elim (results id) [ none ↦ unknown | some r ↦ r.status ]

-- The switch has no default: a status that it does not list adds to no slice.
unfoldable pub collect : (ObligationId → Option ObligationResult) → List ObligationId → Blocking
unfolding status_in
collect results [] = record { violations = []; unknowns = []; needs = []; deferrals = [] }
collect results (id ∷ ids) =
    let rest = collect results ids in
    elim (status_in results id) [
      | violated ↦ record rest { violations = id ∷ rest.violations }
      | unknown ↦ record rest { unknowns = id ∷ rest.unknowns }
      | needs_assumption ↦ record rest { needs = id ∷ rest.needs }
      | deferred ↦ record rest { deferrals = id ∷ rest.deferrals }
      | satisfied ↦ rest
      | not_applicable ↦ rest
      | unlisted _ ↦ rest
    ]

unfoldable pub decide : Blocking → Decision × List ObligationId
unfolding sort_obligations
decide b =
    if not (is_empty b.violations)
    then (proven_ineligible, sort_obligations b.violations)
    else if not (is_empty b.unknowns)
    then (undecided, sort_obligations b.unknowns)
    else if not (is_empty b.needs)
    then (requires_assumption, sort_obligations b.needs)
    else if not (is_empty b.deferrals)
    then (postponed, sort_obligations b.deferrals)
    else (proven_eligible, [])

unfoldable pub strategy_status :
    List ObligationId → (ObligationId → Option ObligationResult) → Decision × List ObligationId
unfolding decide collect
strategy_status required results = decide (collect results required)

-- `any… = true` in the loop of `aggregateDecision`.
unfoldable pub has_status : (Decision → Bool) → List StrategyEligibility → Bool
has_status is [] = false
has_status is (s ∷ ss) = if is s.status then true else has_status is ss

abbrev pub is_eligible : Decision → Bool
is_eligible d = elim d [ proven_eligible ↦ true | _ ↦ false ]

abbrev pub is_ineligible : Decision → Bool
is_ineligible d = elim d [ proven_ineligible ↦ true | _ ↦ false ]

abbrev pub is_assumption : Decision → Bool
is_assumption d = elim d [ requires_assumption ↦ true | _ ↦ false ]

abbrev pub is_undecided : Decision → Bool
is_undecided d = elim d [ undecided ↦ true | _ ↦ false ]

abbrev pub is_postponed : Decision → Bool
is_postponed d = elim d [ postponed ↦ true | _ ↦ false ]

unfoldable pub aggregate_decision : List StrategyEligibility → Decision
unfolding has_status
aggregate_decision [] = postponed
aggregate_decision (s ∷ ss) =
    if has_status is_eligible (s ∷ ss)
    then proven_eligible
    else if has_status is_assumption (s ∷ ss)
    then requires_assumption
    else if has_status is_undecided (s ∷ ss)
    then undecided
    else if has_status is_postponed (s ∷ ss) && not (has_status is_ineligible (s ∷ ss))
    then postponed
    else proven_ineligible
