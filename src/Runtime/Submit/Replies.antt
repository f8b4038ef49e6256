-- ===== src/Runtime/Submit/Replies.antt =====
-- The reply to a submission (runtime/coordinator_handlers.go, `handleSubmit`).
use batch_weaver.Base.{
  ℕ, ◌+◌, ◌≡◌, refl, ◌∙◌, sym, ap, subst, append-nil, ◌⊎◌, Bool, true, false, ◌&&◌, List, [], ◌∷◌,
  ◌++◌, Option, none, some, arith, length, ltb, leb, Option-cases, Bool-cases, inl, inr,
  if◌then◌else◌,
}
use batch_weaver.Runtime.Policy.{reject, fallback, block}
use batch_weaver.Runtime.State.{
  Category, CallError, Partition, SubmitReq, Effect, Coordinator, emit, find_partition, replied,
  delivered, canceled, started, released, added, subtracted, stored, recorded, active_partitions,
}
use batch_weaver.Runtime.Submit.{
  over_limits, join_items, join_batches, new_partition, reply, overflow, joined, join_request,
  enqueue, admit, handle_submit,
}

module _ {K V E : Type 0} where
  -- The replies that a log sends.
  abbrev pub replies : List (Effect K V E) → List (ℕ × Option (CallError E))
  replies [] = []
  replies (replied w e ∷ es) = (w, e) ∷ replies es
  replies (delivered _ _ ∷ es) = replies es
  replies (canceled _ ∷ es) = replies es
  replies (started _ _ _ ∷ es) = replies es
  replies (released _ _ ∷ es) = replies es
  replies (added _ _ ∷ es) = replies es
  replies (subtracted _ _ ∷ es) = replies es
  replies (stored _ _ ∷ es) = replies es
  replies (recorded _ _ ∷ es) = replies es

  replies-append : (xs ys : List (Effect K V E)) → replies (xs ++ ys) ≡ replies xs ++ replies ys
  replies-append [] ys = refl
  replies-append (replied w e ∷ es) ys = ap (λ l. (w, e) ∷ l) (replies-append es ys)
  replies-append (_ ∷ es) ys = replies-append es ys

  -- Between two states a submission was replied to once, or was parked.
  abbrev pub IsSettled : SubmitReq K → Coordinator K V E → Coordinator K V E → Type 0
  IsSettled req c d =
      ((e : Option (CallError E)) × (replies d.log ≡ replies c.log ++ (req.waiter.id, e) ∷ [])
        × (d.blocked ≡ c.blocked))
      ⊎ ((replies d.log ≡ replies c.log) × (d.blocked ≡ c.blocked ++ req ∷ []))

  overflow-IsSettled :
      (req : SubmitReq K) (g : Category) (b : Bool) (c : Coordinator K V E)
      → IsSettled req c (overflow req g b c)
  unfolding overflow emit reply
  overflow-IsSettled req g b c =
      elim c.config.policy
        as (λ p.
          IsSettled req c
            (overflow req g b (record c { config = record c.config { policy = p } }))) [
              | reject ↦ inl (_, replies-append c.log _, refl)
              | fallback ↦ inl (_, replies-append c.log _, refl)
              | block ↦ inr (refl, refl)
            ]

  joined-IsSettled :
      (req : SubmitReq K) (p : Partition K) (c : Coordinator K V E)
      → IsSettled req c (joined req p c)
  unfolding joined emit reply
  joined-IsSettled req p c = inl (none, replies-append c.log _, refl)

  enqueue-IsSettled :
      (now : ℕ) (p : Partition K) (req : SubmitReq K) (c : Coordinator K V E)
      → IsSettled req c (enqueue now p req c)
  unfolding enqueue emit reply
  enqueue-IsSettled now p req c = inl (none, replies-append c.log _, refl)

  join_request-IsSettled :
      (p : Partition K) (req : SubmitReq K) (c : Coordinator K V E) {d : Coordinator K V E}
      → join_request p req c ≡ some d
      → IsSettled req c d
  unfolding join_request
  join_request-IsSettled p req c {d} h =
      elim (Option-cases (join_batches c.config.equal req c.inflight)) [
        | inr (bs, e) ↦
            let same : joined req p (record c { inflight = bs }) ≡ d = ground (arith, h, e) in
            subst (IsSettled req c) same (joined-IsSettled req p (record c { inflight = bs }))
        | inl e ↦ elim (Option-cases (join_items c.config.equal req p.pending)) [
          | inl m ↦ absurd (ground (arith, h, e, m))
          | inr (its, m) ↦
              let same : joined req (record p { pending = its }) c ≡ d = ground (arith, h, e, m) in
              subst (IsSettled req c) same (joined-IsSettled req (record p { pending = its }) c)
        ]
      ]

  -- A step before that replies to nobody and parks nobody.
  quiet-IsSettled :
      (req : SubmitReq K) (c c' d : Coordinator K V E)
      → replies c'.log ≡ replies c.log
      → c'.blocked ≡ c.blocked
      → IsSettled req c' d
      → IsSettled req c d
  quiet-IsSettled req c c' d l b (inl (e, r, s)) =
      inl (e, r ∙ ap (λ x. x ++ (req.waiter.id, e) ∷ []) l, s ∙ b)
  quiet-IsSettled req c c' d l b (inr (r, s)) = inr (r ∙ l, s ∙ ap (λ x. x ++ req ∷ []) b)

  admit-IsSettled :
      (now : ℕ) (p : Partition K) (req : SubmitReq K) (c : Coordinator K V E)
      → IsSettled req c (admit now p req c)
  unfolding admit enqueue
  admit-IsSettled now p req c =
      elim (Option-cases (if c.config.dedup_enabled then join_request p req c else none)) [
        | inr (d, e) ↦
            let found : join_request p req c ≡ some d = ground (arith, e) in
            let same : admit now p req c ≡ d = rw (e, admit) refl in
            subst (IsSettled req c) (sym same) (join_request-IsSettled p req c {d = d} found)
        | inl e ↦ elim (Option-cases (over_limits c.config.limits p req)) [
          | inl m ↦
              let same : admit now p req c ≡ enqueue now p req c = rw (e, admit, m) refl in
              subst (IsSettled req c) (sym same) (enqueue-IsSettled now p req c)
          | inr (g, m) ↦
              let same : admit now p req c ≡ overflow req g false c = rw (e, admit, m) refl in
              subst (IsSettled req c) (sym same) (overflow-IsSettled req g false c)
        ]
      ]

  -- A submission is settled at once, whatever the state: either exactly one reply is sent, to its
  -- own waiter, and no other request is parked or taken off the parked ones; or no reply is sent
  -- and the request is parked behind the others.
  pub handle_submit-IsSettled :
      (now : ℕ) (req : SubmitReq K) (c : Coordinator K V E)
      → IsSettled req c (handle_submit now req c)
  unfolding handle_submit emit reply
  handle_submit-IsSettled now req c = elim (Bool-cases c.closing) [
    | inl shut ↦ rw shut (inl (_, replies-append c.log _, refl))
    | inr open_ ↦ elim (Option-cases (find_partition req.part c.partitions)) [
      | inr (p, e) ↦ rw (open_, e, handle_submit) (admit-IsSettled now p req c)
      | inl e ↦
          elim (Bool-cases (
            ltb 0 c.config.limits.max_partitions
            && leb c.config.limits.max_partitions (length c.partitions))) [
              | inl full ↦
                  rw (open_, e, full, handle_submit)
                    (overflow-IsSettled req Category.partitions true c)
              | inr room ↦
                  let c' =
                    emit (stored active_partitions (length c.partitions + 1) ∷ [])
                      (record c { partitions = c.partitions ++ new_partition req.part ∷ [] }) in
                  rw (open_, e, room, handle_submit)
                    (quiet-IsSettled req c c' (admit now (new_partition req.part) req c')
                      (replies-append c.log _ ∙ append-nil _) refl
                      (admit-IsSettled now (new_partition req.part) req c'))
            ]
    ]
  ]
