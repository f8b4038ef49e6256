-- ===== src/Runtime/Caller/Laws.antt =====
-- What a call does before it waits (`Do` of runtime/binding.go).
use batch_weaver.Base.{
  ◌≡◌, refl, ap, ◌∙◌, subst, ◌⊎◌, ◌↔◌, inl, inr, Bool, true, false, not, ◌&&◌, List, Option, none,
  some, arith, Bytes, bytes_eq, bytes_eq_refl, eq_of_bytes_eq, Bool-cases, Option-cases,
  if◌then◌else◌, Result, ok, err,
}
use batch_weaver.Runtime.State.{SubmitReq}
use batch_weaver.Runtime.Engine.{
  EngineState, EngineError, opened, closing, closed, refuse_submission,
}
use batch_weaver.Runtime.Caller.{
  ExecFrame, mark_exec, executing, partitioner, key_clone, key_hash, DoError, recover_callback,
  sure, call_weight, call_bytes, Call, Decision, submits, with_ok, fallback_or, weight_for,
  submission, measured, request, engine_refuses, scope_required, remember_or_request, in_engine,
  in_scope, prepare,
}

left : (a b : Bool) → (a && b) ≡ true → a ≡ true
left true b h = refl
left false b h = h

right : (a b : Bool) → (a && b) ≡ true → b ≡ true
right true b h = h
right false b h = ground (arith, h)

same : (a b c d : Bytes) → a ≡ b → c ≡ d → (bytes_eq a b && bytes_eq c d) ≡ true
same a b c d p q = ground (
  arith,
  subst (λ x. bytes_eq a x ≡ true) p (bytes_eq_refl a),
  subst (λ x. bytes_eq c x ≡ true) q (bytes_eq_refl c),
)

refuse_submission-opened : (s : EngineState) → refuse_submission s ≡ none → s ≡ opened
refuse_submission-opened opened h = refl
refuse_submission-opened closing h = cc
refuse_submission-opened closed h = cc

-- An operation executes in a context within a marked one exactly when it is the marked operation in
-- the marked partition, or executed before.
pub executing-mark_exec_iff :
    (op part op2 part2 : Bytes) (fs : List ExecFrame)
    → (executing op part (mark_exec op2 part2 fs) ≡ true)
      ↔ (((op2 ≡ op) × (part2 ≡ part)) ⊎ (executing op part fs ≡ true))
unfolding executing
executing-mark_exec_iff op part op2 part2 fs =
    elim (Bool-cases (bytes_eq op2 op && bytes_eq part2 part)) [
      | inl e ↦ (
        λ h. inl (
          eq_of_bytes_eq op2 op (left (bytes_eq op2 op) (bytes_eq part2 part) e),
          eq_of_bytes_eq part2 part (right (bytes_eq op2 op) (bytes_eq part2 part) e),
        ),
        λ h. ground (arith, e),
      )
      | inr e ↦ (
        λ h. inr (ground (arith, e, h)),
        λ h. elim h [
          | inl (p, q) ↦ ground (arith, e, same op2 op part2 part p q)
          | inr k ↦ ground (arith, e, k)
        ],
      )
    ]

module _ {K V X : Type 0} where
  -- The decision is to submit.
  abbrev IsSubmitting : Decision K V X → SubmitReq K → Type 0
  IsSubmitting d q = d ≡ submits q

  with_ok-submits :
      {A : Type 0} (r : Result (DoError X) A) (f : A → Decision K V X) (q : SubmitReq K)
      → with_ok r f ≡ submits q
      → (a : A) × (r ≡ ok a) × (f a ≡ submits q)
  with_ok-submits (ok a) f q h = (a, refl, h)
  with_ok-submits (err e) f q h = cc

  fallback_or-submits :
      (c : Call K V X) (e : DoError X) (q : SubmitReq K) {P : Type 0}
      → fallback_or c e ≡ submits q
      → P
  fallback_or-submits c e q h = elim (Bool-cases (c.has_fallback && not c.require_scope)) [
    | inl k ↦ ground (arith, k, h)
    | inr k ↦ ground (arith, k, h)
  ]

  abbrev request_of : SubmitReq K → Decision K V X → SubmitReq K
  request_of d (submits q) = q
  request_of d _ = d

  submits_injective : (p q : SubmitReq K) → Path (Decision K V X) (submits p) (submits q) → p ≡ q
  submits_injective p q h = ap (request_of p) h

  -- A submission is made from the partition, the key and the waiter of its call.
  abbrev pub IsOf : Call K V X → Bytes → K → SubmitReq K → Type 0
  IsOf c part k q = (q.part ≡ part) × (q.key ≡ k) × (q.waiter ≡ c.waiter)

  measured-submits :
      (c : Call K V X) (part : Bytes) (k : K) (q : SubmitReq K)
      → measured c part k ≡ submits q
      → IsOf c part k q
  measured-submits c part k q m =
      let (h, eh, mh) =
        with_ok-submits (recover_callback c.repanic key_hash (sure (c.hash k)))
          (λ h. with_ok (call_weight c.repanic (weight_for c k)) (λ w.
            with_ok (call_bytes c.repanic (c.bytes_of k))
              (λ n. submits (submission c part k h w n))))
          q m in
      let (w, ew, mw) =
        with_ok-submits (call_weight c.repanic (weight_for c k))
          (λ w.
            with_ok (call_bytes c.repanic (c.bytes_of k))
              (λ n. submits (submission c part k h w n)))
          q mh in
      let (n, en, mn) =
        with_ok-submits (call_bytes c.repanic (c.bytes_of k))
          (λ n. submits (submission c part k h w n)) q mw in
      subst (IsOf c part k) (submits_injective (submission c part k h w n) q mn) (refl, refl, refl)

  request-submits :
      (c : Call K V X) (part : Bytes) (k : K) (q : SubmitReq K)
      → request c part k ≡ submits q
      → (executing c.op_id part c.frames ≡ false) × IsOf c part k q
  unfolding request
  request-submits c part k q h = elim (Bool-cases (executing c.op_id part c.frames)) [
    | inl e ↦ elim (Bool-cases (c.has_fallback)) [
      | inl f ↦ ground (arith, e, f, h)
      | inr f ↦ ground (arith, e, f, h)
    ]
    | inr e ↦ (e, measured-submits c part k q (ground (arith, e, h)))
  ]

  -- The call may submit: it runs in an open scope of an open engine, remembers nothing for its key,
  -- and its operation does not execute in its partition yet.
  pub record IsSubmissible (c : Call K V X) (q : SubmitReq K) : Type 0 where
    pub in_time : c.ctx_error ≡ none
    pub scoped : c.scope_open ≡ some true
    pub accepted : c.engine_state ≡ opened
    pub new : (if c.memo_enabled then c.memo q.part q.key else none) ≡ none
    pub outside : executing c.op_id q.part c.frames ≡ false
    pub waits : q.waiter ≡ c.waiter

  in_engine-submits :
      (c : Call K V X) (part : Bytes) (q : SubmitReq K) (o : Option EngineError)
      → in_engine c part o ≡ submits q
      → (o ≡ none)
        × ((k : K) × ((if c.memo_enabled then c.memo part k else none) ≡ none)
            × (request c part k ≡ submits q))
  unfolding remember_or_request
  in_engine-submits c part q (some e) h = fallback_or-submits c (engine_refuses e) q h
  in_engine-submits c part q none h =
      let (k, e, m) =
        with_ok-submits (recover_callback c.repanic key_clone (sure c.clone))
          (remember_or_request c part) q h in
      elim (Option-cases (if c.memo_enabled then c.memo part k else none)) [
        | inl n ↦ (refl, (k, n, ground (arith, n, m)))
        | inr (r, n) ↦ ground (arith, n, m)
      ]

  in_scope-submits :
      (c : Call K V X) (part : Bytes) (q : SubmitReq K) (o : Option Bool)
      → in_scope c part o ≡ submits q
      → (o ≡ some true) × (in_engine c part (refuse_submission c.engine_state) ≡ submits q)
  in_scope-submits c part q none h = fallback_or-submits c scope_required q h
  in_scope-submits c part q (some false) h = cc
  in_scope-submits c part q (some true) h = (refl, h)

  submissible :
      (c : Call K V X) (part : Bytes) (k : K) (q : SubmitReq K)
      → c.ctx_error ≡ none
      → c.scope_open ≡ some true
      → c.engine_state ≡ opened
      → (if c.memo_enabled then c.memo part k else none) ≡ none
      → (executing c.op_id part c.frames ≡ false) × IsOf c part k q
      → IsSubmissible c q
  submissible c part k q t s a n (e, (p, r, w)) = record {
    in_time = t;
    scoped = s;
    accepted = a;
    new =
        ap (λ x. if c.memo_enabled then c.memo x q.key else none) p
        ∙ (ap (λ x. if c.memo_enabled then c.memo part x else none) r ∙ n);
    outside = ap (λ x. executing c.op_id x c.frames) p ∙ e;
    waits = w;
  }

  -- A call submits only in time, in an open scope, to an open engine, with nothing remembered under
  -- its key, and never while its operation executes in its partition.
  pub prepare-IsSubmissible :
      (c : Call K V X) (q : SubmitReq K) → prepare c ≡ submits q → IsSubmissible c q
  unfolding prepare
  prepare-IsSubmissible c q h = elim (Option-cases (c.ctx_error)) [
    | inr (x, e) ↦ ground (arith, e, h)
    | inl e ↦
        let (part, ep, hs) =
          with_ok-submits (recover_callback c.repanic partitioner c.partition)
            (λ part. in_scope c part c.scope_open) q (ground (arith, e, h)) in
        let (s, he) = in_scope-submits c part q c.scope_open hs in
        let (o, (k, n, hr)) = in_engine-submits c part q (refuse_submission c.engine_state) he in
        submissible c part k q e s (refuse_submission-opened c.engine_state o) n
          (request-submits c part k q hr)
  ]
