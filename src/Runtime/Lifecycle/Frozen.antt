-- ===== src/Runtime/Lifecycle/Frozen.antt =====
-- An engine that is closing or closed (runtime/engine.go, runtime/scope.go).
use batch_weaver.Base.{
  ℕ, zero, suc, ◌+◌, ◌≤◌, ◌≡◌, refl, ap, ◌∙◌, inl, inr, List, [], ◌∷◌, true, false, none, some,
  arith, length, length-append, ltb, Bool-cases, Option-cases,
}
use batch_weaver.Runtime.Engine.{
  EngineState, opened, closing, closed, Engine, refuse_submission, accepting_submissions, is_opened,
  ensure_open, no_longer_open, begin_close, end_close,
}
use batch_weaver.Runtime.Scope.{
  Scope, Entry, asked, numbered, World, nested_answer, new_scope, enter, entry_at, enter_at,
  track_op, closed_scope, update_scope, scope_at, track_in, begin_leave, end_leave,
}
use batch_weaver.Runtime.Lifecycle.{
  Reach, started, registered, closing_begun, closing_ended, scope_asked, scope_entered,
  scope_tracked, scope_left, scope_counted_out, register_controller-ok, ask_scope-ok,
}

abbrev pub calls_and_scopes : World → ℕ
calls_and_scopes w = length w.entering + length w.scopes

-- The engine is not open, and has the operations that it had; what has been made since, calls of
-- `NewScope` have made that were on their way.
abbrev pub IsFrozen : World → World → Type 0
IsFrozen start w =
    (is_opened w.engine.state ≡ false)
    × (w.engine.ops ≡ start.engine.ops)
    × (calls_and_scopes w ≤ calls_and_scopes start)

-- A step that makes no scope and takes no call in.
IsCalm : World → World → Type 0
IsCalm w v =
    (v.engine.state ≡ w.engine.state)
    × (v.engine.ops ≡ w.engine.ops)
    × (calls_and_scopes v ≤ calls_and_scopes w)

length-update_scope :
    (f : Scope → Scope) (i : ℕ) (ss : List Scope) → length (update_scope f i ss) ≡ length ss
unfolding update_scope
length-update_scope f i [] = refl
length-update_scope f zero (s ∷ ss) = refl
length-update_scope f (suc i) (s ∷ ss) = ap suc (length-update_scope f i ss)

length-entry_at :
    (i : ℕ) (es : List Entry) {e : Entry} {others : List Entry}
    → entry_at i es ≡ some (e, others)
    → length es ≡ suc (length others)
unfolding entry_at
length-entry_at i [] h = cc
length-entry_at zero (x ∷ xs) h = ground (arith, h)
length-entry_at (suc i) (x ∷ xs) h = elim (Option-cases (entry_at i xs)) [
  | inl n ↦ ground (arith, n, h)
  | inr ((d, ds), n) ↦ ground (arith, n, h, length-entry_at i xs n)
]

enter-IsCalm :
    (e : Entry) (others : List Entry) (w : World)
    → length w.entering ≡ suc (length others)
    → IsCalm w (enter e others w)
unfolding IsCalm
enter-IsCalm (asked p parent) others w h = elim (Option-cases (nested_answer p parent)) [
  | inl n ↦ rw (n, enter) (refl, refl, omega (arith, h))
  | inr (a, n) ↦ rw (n, enter) (refl, refl, omega (arith, h))
]
enter-IsCalm (numbered id) others w h =
    (refl, refl, omega (arith, h, length-append w.scopes (new_scope id ∷ [])))

enter_at-IsCalm : (i : ℕ) (w : World) → IsCalm w (enter_at i w)
unfolding IsCalm enter_at
enter_at-IsCalm i w = elim (Option-cases (entry_at i w.entering)) [
  | inl e ↦ rw (e, enter_at) (refl, refl, omega arith)
  | inr ((d, others), e) ↦
      rw (e, enter_at) (enter-IsCalm d others w (length-entry_at i w.entering e))
]

begin_leave-IsCalm : (i : ℕ) (w : World) → IsCalm w (begin_leave i w)
unfolding IsCalm begin_leave
begin_leave-IsCalm i w = elim (Option-cases (scope_at i w.scopes)) [
  | inl e ↦ rw (e, begin_leave) (refl, refl, omega arith)
  | inr (s, e) ↦ elim (Bool-cases (s.is_open)) [
    | inl o ↦
        rw (e, begin_leave, o)
          (refl, refl, omega (arith, length-update_scope closed_scope i w.scopes))
    | inr o ↦ rw (e, begin_leave, o) (refl, refl, omega arith)
  ]
]

end_leave-IsCalm : (w : World) → IsCalm w (end_leave w)
unfolding IsCalm end_leave
end_leave-IsCalm w = elim (Bool-cases (ltb 0 w.leaving)) [
  | inl e ↦ rw e (refl, refl, omega arith)
  | inr e ↦ rw e (refl, refl, omega arith)
]

IsFrozen-IsCalm : (start w v : World) → IsFrozen start w → IsCalm w v → IsFrozen start v
unfolding IsCalm
IsFrozen-IsCalm start w v f c = (ap is_opened c.0 ∙ f.0, c.1 ∙ f.1, omega (arith, f.2, c.2))

absurd_open : {A : Type 0} (x : EngineState) → is_opened x ≡ false → is_opened x ≡ true → A
absurd_open x h k = cc

refuse_submission-none : (x : EngineState) → refuse_submission x ≡ none → is_opened x ≡ true
refuse_submission-none opened h = refl
refuse_submission-none closing h = cc
refuse_submission-none closed h = cc

accepting_submissions-none :
    (e : Engine) → accepting_submissions e ≡ none → is_opened e.state ≡ true
unfolding accepting_submissions
accepting_submissions-none e h = refuse_submission-none e.state h

no_longer_open-is_opened : (x : EngineState) → is_opened (no_longer_open x) ≡ false
no_longer_open-is_opened opened = refl
no_longer_open-is_opened closing = refl
no_longer_open-is_opened closed = refl

ensure_open-none : (e : Engine) → ensure_open e ≡ none → is_opened e.state ≡ true
unfolding ensure_open
ensure_open-none e h = elim (Bool-cases (is_opened e.state)) [
  | inl k ↦ k
  | inr k ↦ ground (arith, k, h)
]

-- An engine that is not open stays so and gets no operation, in whatever order the steps come; the
-- scopes that it makes from then on, and the calls of `NewScope` that are still on their way, are no
-- more than the calls that had been let in while it was open.
pub Reach-IsFrozen :
    {start w : World} → is_opened start.engine.state ≡ false → Reach start w → IsFrozen start w
unfolding begin_close end_close IsCalm
Reach-IsFrozen h started = (h, refl, omega arith)
Reach-IsFrozen h (registered {w} r id e k) =
    let f = Reach-IsFrozen h r in
    absurd_open w.engine.state f.0
      (ensure_open-none w.engine (register_controller-ok id w.engine e k).2)
Reach-IsFrozen h (closing_begun {w} r) =
    let f = Reach-IsFrozen h r in (no_longer_open-is_opened w.engine.state, f.1, f.2)
Reach-IsFrozen h (closing_ended {w} r n) = let f = Reach-IsFrozen h r in (refl, f.1, f.2)
Reach-IsFrozen h (scope_asked {w} r p parent v k) =
    let f = Reach-IsFrozen h r in
    absurd_open w.engine.state f.0
      (accepting_submissions-none w.engine (ask_scope-ok w p parent v k).0)
Reach-IsFrozen {start} h (scope_entered {w} r i) =
    IsFrozen-IsCalm start w (enter_at i w) (Reach-IsFrozen h r) (enter_at-IsCalm i w)
Reach-IsFrozen {start} h (scope_tracked {w} r op i) =
    IsFrozen-IsCalm start w (track_in op i w) (Reach-IsFrozen h r)
      (refl, refl, omega (arith, length-update_scope (track_op op) i w.scopes))
Reach-IsFrozen {start} h (scope_left {w} r i) =
    IsFrozen-IsCalm start w (begin_leave i w) (Reach-IsFrozen h r) (begin_leave-IsCalm i w)
Reach-IsFrozen {start} h (scope_counted_out {w} r) =
    IsFrozen-IsCalm start w (end_leave w) (Reach-IsFrozen h r) (end_leave-IsCalm w)
