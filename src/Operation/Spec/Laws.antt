-- ===== src/Operation/Spec/Laws.antt =====
-- What a valid specification guarantees (operation/validation.go).
use batch_weaver.Base.{
  ◌≡◌, refl, sym, ap, subst, ◌↔◌, ◌⊎◌, inl, inr, Bool, true, false, not, ◌&&◌, ◌||◌, List, [], ◌∷◌,
  ◌++◌, Option, none, some, arith, Bytes, ◌==◌, Bool-cases, is_empty, All, guards, guards-IsPassed,
  or_else-none, or_else, if◌then◌else◌, Result, ok, err, ℤ, pos, ltb_ℤ, ◌≤ℤ◌,
}
use batch_weaver.Operation.Id.{validate_id}
use batch_weaver.Operation.Symbol.{is_no_symbol}
use batch_weaver.Operation.Kind.{Kind, Idempotency}
use batch_weaver.Operation.Semantics.{Semantics, validate_semantics}
use batch_weaver.Operation.Results.{validate_result}
use batch_weaver.Operation.Partitions.{
  Scope, scope_code, PartitionContract, requires, dimension_transaction, dimension_session,
  dimension_tenant, dimension_authorization, partition_tests, process_tests, check_dimensions,
  validate_partition,
}
use batch_weaver.Operation.Contracts.{validate_key}
use batch_weaver.Operation.Policies.{
  SchedulerPolicy, scheduler_tests, validate_scheduler, is_dedup_enabled, validate_deduplication,
  validate_retry, FallbackMode, validate_fallback,
}
use batch_weaver.Operation.Spec.{
  Spec, Finding, invalid_id, invalid_semantics, invalid_scheduler, invalid_partition, cross_tests,
  field_findings, collect, add_error, add_failing, is_kind, is_idempotency, is_fallback,
  is_config_based, validate_cross_field, validate, IsValid, default_spec, apply_options, new_spec,
}

append-parts : (xs ys : List Finding) → xs ++ ys ≡ [] → (xs ≡ []) × (ys ≡ [])
append-parts [] ys h = (refl, h)
append-parts (x ∷ xs) ys h = cc

collect-parts : (xss : List (List Finding)) → collect xss ≡ [] → All (λ xs. xs ≡ []) xss
collect-parts [] h = tt
collect-parts (xs ∷ xss) h =
    ((append-parts xs (collect xss) h).0, collect-parts xss (append-parts xs (collect xss) h).1)

collect_nil : (xss : List (List Finding)) → All (λ xs. xs ≡ []) xss → collect xss ≡ []
collect_nil [] h = refl
collect_nil (xs ∷ xss) h = rw (h.0) (collect_nil xss h.1)

no_error : {E : Type 0} (f : E → Finding) (o : Option E) → add_error f o ≡ [] → o ≡ none
no_error f none h = refl
no_error f (some e) h = cc

add_failing-passed : (xs : List (Bool × Finding)) → add_failing xs ≡ [] → All (λ x. x.0 ≡ false) xs
add_failing-passed [] h = tt
add_failing-passed (x ∷ xs) h = elim (Bool-cases (x.0)) [
  | inl e ↦ ground (arith, e, h)
  | inr e ↦ (e, add_failing-passed xs (ground (arith, e, h)))
]

add_failing_nil : (xs : List (Bool × Finding)) → All (λ x. x.0 ≡ false) xs → add_failing xs ≡ []
add_failing_nil [] h = refl
add_failing_nil (x ∷ xs) h = rw (h.0) (add_failing_nil xs h.1)

field_findings-nil : (s : Spec) → IsValid s → All (λ xs. xs ≡ []) (field_findings s)
unfolding validate
field_findings-nil s h = collect-parts (field_findings s) h

cross_tests-passed : (s : Spec) → IsValid s → All (λ x. x.0 ≡ false) (cross_tests s)
unfolding validate_cross_field
cross_tests-passed s h =
    add_failing-passed (cross_tests s) (field_findings-nil s h).1.1.1.1.1.1.1.1.1.1.1.1.0

scheduler_tests-passed :
    (s : Spec) → IsValid s → All (λ x. x.0 ≡ false) (scheduler_tests s.scheduler_policy)
unfolding validate_scheduler
scheduler_tests-passed s h = guards-IsPassed (scheduler_tests s.scheduler_policy) (
    no_error invalid_scheduler (validate_scheduler s.scheduler_policy)
      (field_findings-nil s h).1.1.1.1.1.0)

and_not : (a b : Bool) → a ≡ true → (a && not b) ≡ false → b ≡ true
and_not a true e h = refl
and_not a false e h = ground (arith, e, h)

and_false : (a b : Bool) → a ≡ true → (a && b) ≡ false → b ≡ false
and_false a true e h = ground (arith, e, h)
and_false a false e h = refl

neither : (a b : Bool) → (a && b) ≡ false → (a ≡ false) ⊎ (b ≡ false)
neither true b h = inr h
neither false b h = inl refl

neither_not : (a b : Bool) → (a && not b) ≡ false → (a ≡ false) ⊎ (b ≡ true)
neither_not a true h = inr refl
neither_not true false h = inr (ground (arith, h))
neither_not false false h = inl refl

isolated :
    (a b c : Bool) → (a && (not b || not c)) ≡ false → (a ≡ false) ⊎ ((b ≡ true) × (c ≡ true))
isolated false b c h = inl refl
isolated true true true h = inr (refl, refl)
isolated true true false h = ground (arith, h)
isolated true false c h = ground (arith, h)

-- Batches form across the process, and the operation is not declared public.
abbrev pub is_private_process : PartitionContract → Bool
is_private_process c =
    (scope_code c.scope == scope_code Scope.process) && not c.public_context_indep

process_tests-passed :
    (s : Spec)
    → IsValid s
    → (is_private_process s.partition_contract
        && (not (requires s.partition_contract dimension_authorization)
            || not (requires s.partition_contract dimension_tenant)))
      ≡ false
unfolding validate_partition
process_tests-passed s h =
    let c = s.partition_contract in
    let rest =
      or_else (check_dimensions [] (c.required ++ c.optional)) (guards (process_tests c)) in
    let outer =
      or_else-none (guards (partition_tests c)) rest
        (no_error invalid_partition (validate_partition c) (field_findings-nil s h).1.1.1.1.0) in
    (guards-IsPassed (process_tests c)
      (or_else-none (check_dimensions [] (c.required ++ c.optional)) (guards (process_tests c))
        outer.1).1).0

-- The limits of the scheduler are positive and in order, and its times are not negative.
abbrev pub IsLimited : SchedulerPolicy → Type 0
IsLimited p =
    (pos 1 ≤ℤ p.min_batch_size)
    × (p.min_batch_size ≤ℤ p.max_batch_size)
    × (pos 1 ≤ℤ p.max_batch_size)
    × (pos 1 ≤ℤ p.max_batch_weight)
    × (pos 1 ≤ℤ p.max_payload_bytes)
    × (pos 0 ≤ℤ p.max_wait)
    × (pos 0 ≤ℤ p.deadline_margin)
    × (pos 1 ≤ℤ p.max_concurrency)
    × (pos 1 ≤ℤ p.queue_items)
    × (pos 1 ≤ℤ p.queue_bytes)
    × (pos 1 ≤ℤ p.active_partitions)

not_less : (a b : ℤ) → ltb_ℤ a b ≡ false → b ≤ℤ a
not_less a b h = ground (arith, h)

-- A valid operation has positive limits on batches, queues, partitions and provider calls, the
-- smallest batch not above the largest, and times that are not negative.
pub validate-IsLimited : (s : Spec) → IsValid s → IsLimited s.scheduler_policy
validate-IsLimited s h =
    let p = s.scheduler_policy in
    let t = (scheduler_tests-passed s h).1.1.1 in
    (
      not_less p.min_batch_size (pos 1) t.0,
      not_less p.max_batch_size p.min_batch_size t.1.1.0,
      not_less p.max_batch_size (pos 1) t.1.0,
      not_less p.max_batch_weight (pos 1) t.1.1.1.0,
      not_less p.max_payload_bytes (pos 1) t.1.1.1.1.0,
      not_less p.max_wait (pos 0) t.1.1.1.1.1.0,
      not_less p.deadline_margin (pos 0) t.1.1.1.1.1.1.0,
      not_less p.max_concurrency (pos 1) t.1.1.1.1.1.1.1.0,
      not_less p.queue_items (pos 1) t.1.1.1.1.1.1.1.1.0,
      not_less p.queue_bytes (pos 1) t.1.1.1.1.1.1.1.1.1.0,
      not_less p.active_partitions (pos 1) t.1.1.1.1.1.1.1.1.1.1.0,
    )

-- A valid operation that retries allows it and is not non-idempotent, and with conditional
-- idempotency it names an idempotency key.
pub validate-retry :
    (s : Spec)
    → IsValid s
    → s.retry_policy.enabled ≡ true
    → (s.semantics.retry_allowed ≡ true)
      × (is_idempotency s.semantics Idempotency.non_idempotent ≡ false)
      × ((is_idempotency s.semantics Idempotency.conditional ≡ false)
          ⊎ (is_no_symbol s.retry_policy.idempotency_key ≡ false))
validate-retry s h e =
    let t = (cross_tests-passed s h).1.1.1.1 in
    (
      and_not s.retry_policy.enabled s.semantics.retry_allowed e t.0,
      and_false s.retry_policy.enabled (is_idempotency s.semantics Idempotency.non_idempotent) e
          t.1.0,
      neither (is_idempotency s.semantics Idempotency.conditional)
          (is_no_symbol s.retry_policy.idempotency_key)
          (and_false s.retry_policy.enabled
            (is_idempotency s.semantics Idempotency.conditional
              && is_no_symbol s.retry_policy.idempotency_key)
            e t.1.1.0),
    )

-- Of a valid operation, only one whose semantics allow it deduplicates, and non-idempotent ones do
-- not fall back to parallel scalar calls.
pub validate-dedup :
    (s : Spec)
    → IsValid s
    → ((is_dedup_enabled s.deduplication_policy ≡ false)
        ⊎ (s.semantics.deduplication_allowed ≡ true))
      × ((is_fallback s FallbackMode.parallel_scalar ≡ false)
          ⊎ (is_idempotency s.semantics Idempotency.non_idempotent ≡ false))
validate-dedup s h =
    let t = (cross_tests-passed s h).1.1.1 in
    (
      neither_not (is_dedup_enabled s.deduplication_policy) s.semantics.deduplication_allowed t.0,
      neither (is_fallback s FallbackMode.parallel_scalar)
          (is_idempotency s.semantics Idempotency.non_idempotent) t.1.1.1.1.1.0,
    )

-- A valid operation that is bound to a transaction or a session keeps transactions or sessions
-- apart, and one that batches across the process without being public keeps tenants and
-- authorizations apart.
pub validate-isolation :
    (s : Spec)
    → IsValid s
    → ((is_kind s.semantics Kind.transaction_bound ≡ false)
        ⊎ (requires s.partition_contract dimension_transaction ≡ true))
      × ((is_kind s.semantics Kind.session_bound ≡ false)
          ⊎ (requires s.partition_contract dimension_session ≡ true))
      × ((is_private_process s.partition_contract ≡ false)
          ⊎ ((requires s.partition_contract dimension_authorization ≡ true)
              × (requires s.partition_contract dimension_tenant ≡ true)))
validate-isolation s h =
    let t = (cross_tests-passed s h).1 in
    let c = s.partition_contract in
    (
      neither_not (is_kind s.semantics Kind.transaction_bound) (requires c dimension_transaction)
          t.0,
      neither_not (is_kind s.semantics Kind.session_bound) (requires c dimension_session) t.1.0,
      isolated (is_private_process c) (requires c dimension_authorization)
          (requires c dimension_tenant) (process_tests-passed s h),
    )

-- With defaults, an operation is valid as soon as its identifier and its semantics are, unless it
-- is bound to a transaction or a session.
pub default_spec-validate :
    (id : Bytes) (semantics : Semantics)
    → validate_id id ≡ none
    → validate_semantics semantics ≡ none
    → is_kind semantics Kind.transaction_bound ≡ false
    → is_kind semantics Kind.session_bound ≡ false
    → IsValid (default_spec id semantics)
unfolding validate validate_cross_field is_config_based is_dedup_enabled is_no_symbol validate_key
    validate_result validate_partition check_dimensions validate_scheduler validate_deduplication
    validate_retry validate_fallback
default_spec-validate id semantics hi hs ht hn =
    collect_nil (field_findings (default_spec id semantics)) (
      ap (add_error invalid_id) hi,
      (
        ap (add_error invalid_semantics) hs,
        (
          refl,
          (
            refl,
            (
              refl,
              (
                refl,
                (
                  refl,
                  (
                    refl,
                    (
                      refl,
                      (
                        refl,
                        (
                          refl,
                          (
                            refl,
                            (
                              add_failing_nil (cross_tests (default_spec id semantics)) (
                                refl,
                                (
                                  ground (arith, ht),
                                  (
                                    ground (arith, hn),
                                    (
                                      refl,
                                      (refl, (refl, (refl, (refl, (refl, (ground arith, tt)))))),
                                    ),
                                  ),
                                ),
                              ),
                              tt,
                            ),
                          ),
                        ),
                      ),
                    ),
                  ),
                ),
              ),
            ),
          ),
        ),
      ),
    )

abbrev answered : Spec → Result (List Finding) Spec → Spec
answered d (ok s) = s
answered d (err _) = d

answer_iff :
    (xs : List Finding) (made s : Spec)
    → ((if is_empty xs then ok made else err xs) ≡ ok s) ↔ ((made ≡ s) × (xs ≡ []))
answer_iff [] made s = (λ h. (ap (answered made) h, refl), λ h. ap ok h.0)
answer_iff (x ∷ xs) made s = (λ h. cc, λ h. cc)

-- `NewSpec` gives the defaults as the options change them, exactly when that is valid.
pub new_spec_iff :
    (id : Bytes) (semantics : Semantics) (options : List (Spec → Spec)) (s : Spec)
    → (new_spec id semantics options ≡ ok s)
      ↔ ((apply_options options (default_spec id semantics) ≡ s) × IsValid s)
unfolding new_spec
new_spec_iff id semantics options s =
    let made = apply_options options (default_spec id semantics) in
    let answer = answer_iff (validate made) made s in
    (
      λ h. ((answer.0 h).0, subst IsValid (answer.0 h).0 (answer.0 h).1),
      λ h. answer.1 (h.0, subst IsValid (sym h.0) h.1),
    )
