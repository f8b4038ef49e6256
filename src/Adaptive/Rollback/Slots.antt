-- ===== src/Adaptive/Rollback/Slots.antt =====
-- Each operation has a slot of its own in the monitor of internal/adaptive/rollback.go.
use batch_weaver.Base.{
  ℕ, ◌≡◌, refl, sym, ap, subst, ◌∙◌, inl, inr, Bool, true, false, List, [], ◌∷◌, Bytes, bytes_eq,
  bytes_eq_refl, eq_of_bytes_eq, Option, none, some, arith, Bool-cases, Option-cases, if◌then◌else◌,
}
use batch_weaver.Adaptive.Rollback.{
  Floats, ObservedMetrics, Decision, ArmedChange, Rollback, Armed, lookup, remove, armed_change,
  is_watched, arm, guardrail_breach, is_elapsed, rollback_of, evaluate,
}

-- What happens to a monitor, and when.
pub data Event (F : Type 0) : Type 0 where
  armed : Decision F → ObservedMetrics F → ℕ → Event F
  evaluated : Bytes → ObservedMetrics F → ℕ → Event F

module _ {F : Type 0} where
  abbrev pub about : Event F → Bytes
  about (armed d b now) = d.operation
  about (evaluated o cur now) = o

  -- The events of one operation.
  unfoldable pub events_of : Bytes → List (Event F) → List (Event F)
  events_of o [] = []
  events_of o (e ∷ es) =
      let rest = events_of o es in if bytes_eq (about e) o then e ∷ rest else rest

  -- The rollbacks of one operation.
  unfoldable pub rollbacks_of : Bytes → List (Rollback F) → List (Rollback F)
  rollbacks_of o [] = []
  rollbacks_of o (r ∷ rs) =
      let rest = rollbacks_of o rs in if bytes_eq r.operation o then r ∷ rest else rest

  abbrev pub joined : Option (Rollback F) → List (Rollback F) → List (Rollback F)
  joined none rs = rs
  joined (some r) rs = r ∷ rs

module _ {F : Type 0} (fl : Floats F) where
  abbrev pub step : Event F → Armed F → Armed F × Option (Rollback F)
  step (armed d b now) m = (arm d b now m, none)
  step (evaluated o cur now) m = evaluate fl o cur now m

  -- The rollbacks of a run of the monitor.
  unfoldable pub monitor : List (Event F) → Armed F → List (Rollback F)
  monitor [] m = []
  monitor (e ∷ es) m = joined (step e m).1 (monitor es (step e m).0)

  -- One change, or none, under watch.
  abbrev pub slot_step :
      Event F → Option (ArmedChange F) → Option (ArmedChange F) × Option (Rollback F)
  slot_step (armed d b now) s = (if is_watched d then some (armed_change d b now) else s, none)
  slot_step (evaluated o cur now) none = (none, none)
  slot_step (evaluated o cur now) (some a) =
      if is_elapsed fl a now then (none, none) else elim (guardrail_breach fl a cur) [
        | none ↦ (some a, none)
        | some reason ↦ (none, some (rollback_of fl o a reason now))
      ]

  unfoldable pub slot : List (Event F) → Option (ArmedChange F) → List (Rollback F)
  slot [] s = []
  slot (e ∷ es) s = joined (slot_step e s).1 (slot es (slot_step e s).0)

  bytes_eq-apart :
      (p o x : Bytes) → bytes_eq p o ≡ false → bytes_eq x o ≡ true → bytes_eq x p ≡ false
  bytes_eq-apart p o x h k = elim (Bool-cases (bytes_eq x p)) [
    | inr e ↦ e
    | inl e ↦
        let same : x ≡ p = eq_of_bytes_eq x p e in
        let clash : bytes_eq p o ≡ true = rw (sym same) k in ground (arith, h, clash)
  ]

  -- Nothing is found where it was removed, and all else where it was.
  lookup-remove : (o : Bytes) (m : Armed F) → lookup o (remove o m) ≡ none
  unfolding lookup remove
  lookup-remove o [] = refl
  lookup-remove o (e ∷ es) = elim (Bool-cases (bytes_eq (e.0) o)) [
    | inl h ↦ rw h (lookup-remove o es)
    | inr h ↦ rw (h, h) (lookup-remove o es)
  ]

  lookup-remove_other :
      (o p : Bytes) (m : Armed F) → bytes_eq p o ≡ false → lookup o (remove p m) ≡ lookup o m
  unfolding lookup remove
  lookup-remove_other o p [] h = refl
  lookup-remove_other o p (e ∷ es) h = elim (Bool-cases (bytes_eq (e.0) o)) [
    | inl k ↦ rw (bytes_eq-apart p o (e.0) h k, k) refl
    | inr k ↦ elim (Bool-cases (bytes_eq (e.0) p)) [
      | inl j ↦ rw (j, k) (lookup-remove_other o p es h)
      | inr j ↦ rw (j, k) (lookup-remove_other o p es h)
    ]
  ]

  lookup_same : (o : Bytes) (a : ArmedChange F) (m : Armed F) → lookup o ((o, a) ∷ m) ≡ some a
  unfolding lookup
  lookup_same o a m = rw (bytes_eq_refl o) refl

  -- A step answers what the slot of its operation answers, and changes that slot so.
  step-slot_step :
      (e : Event F) (m : Armed F)
      → (lookup (about e) (step e m).0 ≡ (slot_step e (lookup (about e) m)).0)
        × ((step e m).1 ≡ (slot_step e (lookup (about e) m)).1)
  unfolding arm evaluate
  step-slot_step (armed d b now) m = elim (Bool-cases (is_watched d)) [
    | inl w ↦ rw w (lookup_same (d.operation) (armed_change d b now) _, refl)
    | inr w ↦ rw w (refl, refl)
  ]
  step-slot_step (evaluated o cur now) m = elim (Option-cases (lookup o m)) [
    | inl l ↦ rw (l, evaluate) (l, refl)
    | inr (a, l) ↦ elim (Bool-cases (is_elapsed fl a now)) [
      | inl t ↦ rw (l, t, evaluate) (lookup-remove o m, refl)
      | inr t ↦ elim (Option-cases (guardrail_breach fl a cur)) [
        | inl b ↦ rw (l, t, b, evaluate) (l, refl)
        | inr (x, b) ↦ rw (l, t, b, evaluate) (lookup-remove o m, refl)
      ]
    ]
  ]

  -- A step leaves the slots of the other operations as they are.
  step-other :
      (o : Bytes) (e : Event F) (m : Armed F)
      → bytes_eq (about e) o ≡ false
      → lookup o (step e m).0 ≡ lookup o m
  unfolding arm evaluate
  step-other o (armed d b now) m h = elim (Bool-cases (is_watched d)) [
    | inl w ↦ rw (w, lookup, h) (lookup-remove_other o (d.operation) m h)
    | inr w ↦ rw w refl
  ]
  step-other o (evaluated p cur now) m h = elim (Option-cases (lookup p m)) [
    | inl l ↦ rw (l, evaluate) refl
    | inr (a, l) ↦ elim (Bool-cases (is_elapsed fl a now)) [
      | inl t ↦ rw (l, t, evaluate) (lookup-remove_other o p m h)
      | inr t ↦ elim (Option-cases (guardrail_breach fl a cur)) [
        | inl b ↦ rw (l, t, b, evaluate) refl
        | inr (x, b) ↦ rw (l, t, b, evaluate) (lookup-remove_other o p m h)
      ]
    ]
  ]

  -- What a slot answers is about the operation of the event.
  slot_step-about :
      (o : Bytes) (e : Event F) (s : Option (ArmedChange F)) (b : Bool) (rs : List (Rollback F))
      → bytes_eq (about e) o ≡ b
      → rollbacks_of o (joined (slot_step e s).1 rs)
        ≡ (if b then joined (slot_step e s).1 (rollbacks_of o rs) else rollbacks_of o rs)
  unfolding rollbacks_of rollback_of
  slot_step-about o (armed d b now) s true rs h = refl
  slot_step-about o (armed d b now) s false rs h = refl
  slot_step-about o (evaluated p cur now) none true rs h = refl
  slot_step-about o (evaluated p cur now) none false rs h = refl
  slot_step-about o (evaluated p cur now) (some a) b rs h =
      elim (Bool-cases (is_elapsed fl a now)) [
        | inl t ↦ elim (Bool-cases b) [ inl k ↦ rw (t, k) refl | inr k ↦ rw (t, k) refl ]
        | inr t ↦ elim (Option-cases (guardrail_breach fl a cur)) [
          | inl n ↦ elim (Bool-cases b) [ inl k ↦ rw (t, n, k) refl | inr k ↦ rw (t, n, k) refl ]
          | inr (x, n) ↦ elim (Bool-cases b) [
            | inl k ↦ rw (t, n, h, k) refl
            | inr k ↦ rw (t, n, h, k) refl
          ]
        ]
      ]

  events_of_same :
      (o : Bytes) (e : Event F) (es : List (Event F)) (s : Option (ArmedChange F))
      → bytes_eq (about e) o ≡ true
      → slot (events_of o (e ∷ es)) s
        ≡ joined (slot_step e s).1 (slot (events_of o es) (slot_step e s).0)
  unfolding slot events_of
  events_of_same o e es s h = rw h refl

  events_of_other :
      (o : Bytes) (e : Event F) (es : List (Event F)) (s : Option (ArmedChange F))
      → bytes_eq (about e) o ≡ false
      → slot (events_of o (e ∷ es)) s ≡ slot (events_of o es) s
  unfolding events_of
  events_of_other o e es s h = rw h refl

  -- The monitor, with its map of armed changes, is for each operation the watch on a single change
  -- that sees the events of that operation only: its rollbacks of the operation are those of that
  -- watch, whatever else happens in between.
  pub monitor-slot :
      (o : Bytes) (es : List (Event F)) (m : Armed F)
      → rollbacks_of o (monitor es m) ≡ slot (events_of o es) (lookup o m)
  unfolding monitor slot events_of rollbacks_of
  monitor-slot o [] m = refl
  monitor-slot o (e ∷ es) m =
      let (state, answer) = step-slot_step e m in
      let later = monitor-slot o es (step e m).0 in
      let here = slot_step-about o e (lookup (about e) m) in
      elim (Bool-cases (bytes_eq (about e) o)) [
        | inl h ↦
            let same : about e ≡ o = eq_of_bytes_eq (about e) o h in
            let slots : lookup o (step e m).0 ≡ (slot_step e (lookup o m)).0 =
              subst (λ x. lookup x (step e m).0 ≡ (slot_step e (lookup x m)).0) same state in
            let answers : (step e m).1 ≡ (slot_step e (lookup o m)).1 =
              subst (λ x. (step e m).1 ≡ (slot_step e (lookup x m)).1) same answer in
            ap (λ a. rollbacks_of o (joined a (monitor es (step e m).0))) answers
            ∙ slot_step-about o e (lookup o m) true (monitor es (step e m).0) h
            ∙ ap (joined (slot_step e (lookup o m)).1) (later ∙ ap (slot (events_of o es)) slots)
            ∙ sym (events_of_same o e es (lookup o m) h)
        | inr h ↦
            ap (λ a. rollbacks_of o (joined a (monitor es (step e m).0))) answer
            ∙ here false (monitor es (step e m).0) h
            ∙ later
            ∙ ap (slot (events_of o es)) (step-other o e m h)
            ∙ sym (events_of_other o e es (lookup o m) h)
      ]
