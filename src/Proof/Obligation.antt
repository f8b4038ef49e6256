-- ===== src/Proof/Obligation.antt =====
-- internal/proof/obligation.go and model.go: the registered obligations and their results. An
-- obligation is named by its constant; a string that is no registered identifier stands under
-- `unregistered`, and a status that is none of the constants under `unlisted`.
use batch_weaver.Base.{ℕ, Bytes}

-- In the order of the registry.
pub data ObligationId : Type 0 where
  signature_compatible operation_enabled result_contract : ObligationId
  read_category freshness_neutral target_resolved : ObligationId
  no_observable_barrier early_exit_replayable key_independent no_loop_carried : ObligationId
  receiver_invariant context_invariant partition_stable duplicate_mapping : ObligationId
  first_error_order no_defer_barrier no_recover_boundary : ObligationId
  no_new_concurrency fanout_envelope : ObligationId
  unregistered : Bytes → ObligationId

pub data ObligationStatus : Type 0 where
  satisfied violated needs_assumption unknown not_applicable deferred : ObligationStatus
  unlisted : Bytes → ObligationStatus

pub data Decision : Type 0 where
  proven_eligible proven_ineligible requires_assumption undecided postponed : Decision

-- `obligationRank`: the index in the registry, or its length.
unfoldable pub obligation_rank : ObligationId → ℕ
obligation_rank signature_compatible = 0
obligation_rank operation_enabled = 1
obligation_rank result_contract = 2
obligation_rank read_category = 3
obligation_rank freshness_neutral = 4
obligation_rank target_resolved = 5
obligation_rank no_observable_barrier = 6
obligation_rank early_exit_replayable = 7
obligation_rank key_independent = 8
obligation_rank no_loop_carried = 9
obligation_rank receiver_invariant = 10
obligation_rank context_invariant = 11
obligation_rank partition_stable = 12
obligation_rank duplicate_mapping = 13
obligation_rank first_error_order = 14
obligation_rank no_defer_barrier = 15
obligation_rank no_recover_boundary = 16
obligation_rank no_new_concurrency = 17
obligation_rank fanout_envelope = 18
obligation_rank (unregistered _) = 19
