-- ===== src/Runtime/Complete.antt =====
-- runtime/coordinator_dispatch.go: `handleComplete`, `failBatch` and `distribute`.
use batch_weaver.Base.{
  ℕ, ◌-◌, true, false, List, [], ◌∷◌, ◌++◌, Option, none, some, ◌==◌, length, if◌then◌else◌,
}
use batch_weaver.Message.Response.{
  Outcome, BatchResponse, is_success, is_failure, validate_against, by_id,
}
use batch_weaver.Runtime.State.{
  CallError, CallResult, Item, Inflight, Completion, CompleteReq, panicked, failed, answered,
  Effect, Coordinator, emit, find_partition, contract_response, provider_panic, external, added,
  stored, canceled, provider_errors, item_errors, total_contract_violations, active_provider_calls,
}
use batch_weaver.Runtime.Submit.{retry_blocked}
use batch_weaver.Runtime.Cancel.{write_back}
use batch_weaver.Runtime.Dispatch.{deliver, error_result}

module _ {K : Type 0} where
  unfoldable pub find_batch : ℕ → List (Inflight K) → Option (Inflight K)
  find_batch id [] = none
  find_batch id (b ∷ bs) = if b.id == id then some b else find_batch id bs

  unfoldable pub delete_batch : ℕ → List (Inflight K) → List (Inflight K)
  delete_batch id [] = []
  delete_batch id (b ∷ bs) = if b.id == id then bs else b ∷ delete_batch id bs

  abbrev pub ids_of : List (Item K) → List ℕ
  ids_of [] = []
  ids_of (it ∷ its) = it.id ∷ ids_of its

module _ {V E : Type 0} where
  -- What the outcome of an item says to its callers; an item without an outcome reads Go's zero
  -- outcome, which is a not-found one.
  unfoldable pub result_of : Option (Outcome V E) → CallResult V E
  unfolding is_success is_failure
  result_of none = record { value = none; error = none; found = false }
  result_of (some o) =
      if is_success o
      then record { value = o.value; error = none; found = true }
      else elim o.error [
        | some e ↦ record { value = none; error = some (external e); found = false }
        | none ↦ record { value = none; error = none; found = false }
      ]

module _ {K V E : Type 0} where
  abbrev pub count_failure : Option (Outcome V E) → List (Effect K V E)
  count_failure none = []
  count_failure (some o) =
      if is_success o then [] else if is_failure o then added item_errors 1 ∷ [] else []

  -- The items of a finished batch leave their partition, if it is still there.
  unfoldable pub leave_partition : Inflight K → Coordinator K V E → Coordinator K V E
  leave_partition b c = elim (find_partition b.partition c.partitions) [
    | none ↦ c
    | some p ↦ write_back (record p { live = p.live - length b.items }) c
  ]

  -- One result for every waiter of every item.
  unfoldable pub deliver_all : CallResult V E → List (Item K) → List (Effect K V E)
  unfolding deliver
  deliver_all r [] = []
  deliver_all r (it ∷ its) = deliver r it.waiters ++ deliver_all r its

  -- `failBatch`
  unfoldable pub fail_batch : Inflight K → CallError E → Coordinator K V E → Coordinator K V E
  unfolding emit
  fail_batch b e c = leave_partition b (emit (deliver_all (error_result e) b.items) c)

  -- The walk of `distribute` over the items of the batch.
  unfoldable pub hand_out : List (Outcome V E) → List (Item K) → List (Effect K V E)
  hand_out os [] = []
  hand_out os (it ∷ its) =
      count_failure (by_id it.id os)
      ++ (deliver (result_of (by_id it.id os)) it.waiters ++ hand_out os its)

  unfoldable pub distribute : Inflight K → BatchResponse V E → Coordinator K V E → Coordinator K V E
  unfolding emit
  distribute b resp c = elim (validate_against resp (ids_of b.items)) [
    | some e ↦
        emit (added provider_errors 1 ∷ added total_contract_violations 1 ∷ [])
          (fail_batch b (contract_response e) c)
    | none ↦ leave_partition b (emit (hand_out resp.outcomes b.items) c)
  ]

  unfoldable pub conclude : Inflight K → Completion V E → Coordinator K V E → Coordinator K V E
  unfolding emit
  conclude b (panicked v) c =
      emit (added provider_errors 1 ∷ []) (fail_batch b (provider_panic v) c)
  conclude b (failed e) c = emit (added provider_errors 1 ∷ []) (fail_batch b (external e) c)
  conclude b (answered resp) c = distribute b resp c

  unfoldable pub handle_complete : ℕ → CompleteReq V E → Coordinator K V E → Coordinator K V E
  unfolding emit
  handle_complete now done c = elim (find_batch done.batch_id c.inflight) [
    | none ↦ c
    | some b ↦
        let calls = c.active_provider - 1 in
        retry_blocked now (
          conclude b done.completion (
            emit (stored active_provider_calls calls ∷ canceled b.id ∷ []) (record c {
              inflight = delete_batch done.batch_id c.inflight;
              active_provider = calls;
            })))
  ]
