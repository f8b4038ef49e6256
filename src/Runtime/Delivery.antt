-- ===== src/Runtime/Delivery.antt =====
-- Who is answered when a batch ends (runtime/coordinator_dispatch.go, `handleComplete`).
use batch_weaver.Base.{
  ℕ, ◌-◌, ◌≡◌, refl, ◌∙◌, ap, List, [], ◌∷◌, ◌++◌, append-nil, Option, none, some, arith, length,
  Option-cases, Bool-cases, inl, inr, ◌==◌, ◌&&◌, is_empty, if◌then◌else◌,
}
use batch_weaver.Message.Response.{ResponseError, BatchResponse, Outcome, validate_against, by_id}
use batch_weaver.Runtime.State.{
  CallError, CallResult, Waiter, Item, Partition, Inflight, Completion, Effect, Coordinator, emit,
  find_partition, active_items, panicked, failed, answered, contract_response, provider_panic,
  external, replied, delivered, canceled, started, released, added, subtracted, stored, recorded,
  provider_errors, total_contract_violations,
}
use batch_weaver.Runtime.Cancel.{maybe_retire, write_back}
use batch_weaver.Runtime.Dispatch.{deliver, error_result}
use batch_weaver.Runtime.Complete.{
  ids_of, leave_partition, deliver_all, fail_batch, result_of, hand_out, count_failure, distribute,
  conclude,
}

module _ {K V E : Type 0} where
  -- The results that a log sends to waiters.
  abbrev pub deliveries : List (Effect K V E) → List (ℕ × CallResult V E)
  deliveries [] = []
  deliveries (delivered w r ∷ es) = (w, r) ∷ deliveries es
  deliveries (replied _ _ ∷ es) = deliveries es
  deliveries (canceled _ ∷ es) = deliveries es
  deliveries (started _ _ _ ∷ es) = deliveries es
  deliveries (released _ _ ∷ es) = deliveries es
  deliveries (added _ _ ∷ es) = deliveries es
  deliveries (subtracted _ _ ∷ es) = deliveries es
  deliveries (stored _ _ ∷ es) = deliveries es
  deliveries (recorded _ _ ∷ es) = deliveries es

  deliveries-append :
      (xs ys : List (Effect K V E)) → deliveries (xs ++ ys) ≡ deliveries xs ++ deliveries ys
  deliveries-append [] ys = refl
  deliveries-append (delivered w r ∷ es) ys = ap (λ l. (w, r) ∷ l) (deliveries-append es ys)
  deliveries-append (_ ∷ es) ys = deliveries-append es ys

module _ {V E : Type 0} where
  -- One result for each active waiter, in order.
  abbrev pub answers_to : CallResult V E → List Waiter → List (ℕ × CallResult V E)
  answers_to r [] = []
  answers_to r (w ∷ ws) = if w.active then (w.id, r) ∷ answers_to r ws else answers_to r ws

module _ (K : Type 0) {V E : Type 0} where
  deliveries-deliver :
      (r : CallResult V E) (ws : List Waiter) → deliveries {K = K} (deliver r ws) ≡ answers_to r ws
  unfolding deliver
  deliveries-deliver r [] = refl
  deliveries-deliver r (w ∷ ws) = ground (arith, deliveries-deliver r ws)

  deliveries-count_failure : (o : Option (Outcome V E)) → deliveries {K = K} (count_failure o) ≡ []
  deliveries-count_failure none = refl
  deliveries-count_failure (some o) = ground arith

module _ {K V E : Type 0} where
  abbrev pub answers : (Item K → CallResult V E) → List (Item K) → List (ℕ × CallResult V E)
  answers f [] = []
  answers f (it ∷ its) = answers_to (f it) it.waiters ++ answers f its

  -- What the end of a batch means for one of its items.
  abbrev pub verdict : Inflight K → Completion V E → Item K → CallResult V E
  verdict b (panicked v) it = error_result (provider_panic v)
  verdict b (failed e) it = error_result (external e)
  verdict b (answered r) it = elim (validate_against r (ids_of b.items)) [
    | some e ↦ error_result (contract_response e)
    | none ↦ result_of (by_id it.id r.outcomes)
  ]

  deliveries-deliver_all :
      (r : CallResult V E) (its : List (Item K))
      → deliveries (deliver_all r its) ≡ answers (λ _. r) its
  unfolding deliver_all
  deliveries-deliver_all r [] = refl
  deliveries-deliver_all r (it ∷ its) =
      rw (deliveries-append, deliveries-deliver K r it.waiters, deliveries-deliver_all r its)

  deliveries-hand_out :
      (os : List (Outcome V E)) (its : List (Item K))
      → deliveries (hand_out os its) ≡ answers (λ it. result_of (by_id it.id os)) its
  unfolding hand_out
  deliveries-hand_out os [] = refl
  deliveries-hand_out os (it ∷ its) =
      simp (
        deliveries-append,
        deliveries-count_failure,
        deliveries-deliver,
        deliveries-hand_out os its,
      )

  deliveries-emit :
      (es : List (Effect K V E)) (c : Coordinator K V E)
      → deliveries (emit es c).log ≡ deliveries c.log ++ deliveries es
  unfolding emit
  deliveries-emit es c = deliveries-append c.log es

  deliveries-leave_partition :
      (b : Inflight K) (c : Coordinator K V E)
      → deliveries (leave_partition b c).log ≡ deliveries c.log
  unfolding leave_partition write_back maybe_retire emit
  deliveries-leave_partition b c = elim (Option-cases (find_partition b.partition c.partitions)) [
    | inl e ↦ rw (e, leave_partition, deliveries) refl
    | inr (p, e) ↦
        rw (e, leave_partition, deliveries)
          (retired (record p { live = p.live - length b.items }) _)
  ]
    where
      retired :
          (p : Partition K) (d : Coordinator K V E)
          → deliveries (maybe_retire p d).log ≡ deliveries d.log
      retired p d = elim (Bool-cases (p.live == 0 && is_empty (active_items p d.inflight))) [
        | inl go ↦ rw go (deliveries-append d.log _ ∙ append-nil _)
        | inr stay ↦ rw stay refl
      ]

  deliveries-fail_batch :
      (b : Inflight K) (e : CallError E) (c : Coordinator K V E)
      → deliveries (fail_batch b e c).log
        ≡ deliveries c.log ++ answers (λ _. error_result e) b.items
  unfolding fail_batch
  deliveries-fail_batch b e c =
      rw (deliveries-leave_partition, deliveries-emit, deliveries-deliver_all)

  -- A further entry of the log that answers nobody.
  deliveries-emit_quiet :
      (es : List (Effect K V E)) (c : Coordinator K V E)
      → deliveries es ≡ []
      → deliveries (emit es c).log ≡ deliveries c.log
  deliveries-emit_quiet es c h = rw (deliveries-emit, h, append-nil)

  answers_ext :
      (f g : Item K → CallResult V E)
      → ((it : Item K) → f it ≡ g it)
      → (its : List (Item K)) → answers f its ≡ answers g its
  answers_ext f g h [] = refl
  answers_ext f g h (it ∷ its) = rw (h it, answers_ext f g h its)

  deliveries-distribute_valid :
      (b : Inflight K) (r : BatchResponse V E) (c : Coordinator K V E)
      → validate_against r (ids_of b.items) ≡ none
      → deliveries (distribute b r c).log
        ≡ deliveries c.log ++ answers (λ it. result_of (by_id it.id r.outcomes)) b.items
  unfolding distribute
  deliveries-distribute_valid b r c e =
      rw (e, distribute, deliveries)
        (deliveries-leave_partition b _
          ∙ deliveries-emit _ c
          ∙ ap (λ l. deliveries c.log ++ l) (deliveries-hand_out r.outcomes b.items))

  deliveries-distribute_invalid :
      (b : Inflight K) (r : BatchResponse V E) (c : Coordinator K V E) {x : ResponseError}
      → validate_against r (ids_of b.items) ≡ some x
      → deliveries (distribute b r c).log
        ≡ deliveries c.log ++ answers (λ _. error_result (contract_response x)) b.items
  unfolding distribute
  deliveries-distribute_invalid b r c {x} e =
      rw (e, distribute, deliveries)
        (deliveries-emit_quiet (added provider_errors 1 ∷ added total_contract_violations 1 ∷ [])
            (fail_batch b (contract_response x) c) refl
          ∙ deliveries-fail_batch b (contract_response x) c)

  -- When a batch ends, by a panic, by an error of the provider, by a response that breaks the
  -- contract or by a valid one, every waiter of its items that is still active is sent exactly one
  -- result, in the order of the items, and nobody else is sent any: the panic, the error, the
  -- contract error, or the outcome that the response gives under the item's own identifier.
  pub deliveries-conclude :
      (b : Inflight K) (d : Completion V E) (c : Coordinator K V E)
      → deliveries (conclude b d c).log ≡ deliveries c.log ++ answers (verdict b d) b.items
  unfolding conclude
  deliveries-conclude b (panicked v) c =
      deliveries-emit_quiet (added provider_errors 1 ∷ []) (fail_batch b (provider_panic v) c) refl
      ∙ deliveries-fail_batch b (provider_panic v) c
  deliveries-conclude b (failed e) c =
      deliveries-emit_quiet (added provider_errors 1 ∷ []) (fail_batch b (external e) c) refl
      ∙ deliveries-fail_batch b (external e) c
  deliveries-conclude b (answered r) c = elim (Option-cases (validate_against r (ids_of b.items))) [
    | inl e ↦
        deliveries-distribute_valid b r c e
        ∙ ap (λ l. deliveries c.log ++ l) (answers_ext _ _ (λ it. rw (e, verdict) refl) b.items)
    | inr (x, e) ↦
        deliveries-distribute_invalid b r c e
        ∙ ap (λ l. deliveries c.log ++ l) (answers_ext _ _ (λ it. rw (e, verdict) refl) b.items)
  ]
