-- ===== src/Runtime/Lifecycle.antt =====
-- Every state that an engine and its scopes can come to (runtime/engine.go, runtime/scope.go).
pub mod Frozen
use batch_weaver.Base.{
  ℕ, zero, suc, ◌+◌, ◌-◌, ◌<◌, ◌++◌, ltb, ◌≤◌, ◌≡◌, ◌≢◌, refl, sym, ap, ◌∙◌, subst, ◌⊎◌, inl, inr,
  Bool, true, false, List, [], ◌∷◌, Option, none, some, arith, ℤ, pos, negsuc, pred_ℤ, Bytes,
  bytes_eq, bytes_eq_refl, ◌==◌, Bool-cases, Option-cases, Result-cases, any, All, if◌then◌else◌,
  Result, ok, err,
}
use batch_weaver.Runtime.Engine.{
  EngineState, opened, closing, closed, Engine, EngineError, fresh_engine, refuse_submission,
  accepting_submissions, is_opened, ensure_open, no_longer_open, registered_in, register_controller,
  begin_close, end_close,
}
use batch_weaver.Runtime.Scope.{
  Scope, NestedPolicy, Entry, asked, numbered, World, next_ℤ, ask_scope, nested_answer, new_scope,
  enter, entry_at, enter_at, track_op, closed_scope, update_scope, scope_at, track_in, begin_leave,
  end_leave,
}

-- The steps of engines and scopes, in any order: the steps of a call may have others between them.
pub data Reach (start : World) : World → Type 0 where
  started : Reach start start
  registered :
      {w : World}
      → Reach start w
      → (id : Bytes) (e : Engine) → register_controller id w.engine ≡ ok e
      → Reach start record w { engine = e }
  closing_begun :
      {w : World} → Reach start w → Reach start record w { engine = begin_close w.engine }
  closing_ended :
      {w : World}
      → Reach start w
      → is_opened w.engine.state ≡ false
      → Reach start record w { engine = end_close w.engine }
  scope_asked :
      {w : World}
      → Reach start w
      → (p : NestedPolicy) (parent : Option ℕ) (v : World) → ask_scope p parent w ≡ ok v
      → Reach start v
  scope_entered : {w : World} → Reach start w → (i : ℕ) → Reach start (enter_at i w)
  scope_tracked : {w : World} → Reach start w → (op : Bytes) (i : ℕ) → Reach start (track_in op i w)
  scope_left : {w : World} → Reach start w → (i : ℕ) → Reach start (begin_leave i w)
  scope_counted_out : {w : World} → Reach start w → Reach start (end_leave w)

unfoldable pub count_open : List Scope → ℕ
count_open [] = 0
count_open (s ∷ ss) = if s.is_open then suc (count_open ss) else count_open ss

-- No operation is registered twice.
abbrev pub IsDistinct : List Bytes → Type 0
IsDistinct [] = Unit
IsDistinct (x ∷ xs) = (any (bytes_eq x) xs ≡ false) × IsDistinct xs

pub record IsSound (w : World) : Type 0 where
  pub counted : w.engine.active_scopes ≡ pos (count_open w.scopes + w.leaving)
  pub distinct : IsDistinct w.engine.ops

count_open-update_scope :
    (f : Scope → Scope)
    → ((s : Scope) → (f s).is_open ≡ s.is_open)
    → (i : ℕ) (ss : List Scope) → count_open (update_scope f i ss) ≡ count_open ss
unfolding count_open update_scope
count_open-update_scope f k i [] = refl
count_open-update_scope f k zero (s ∷ ss) = ground (arith, k s)
count_open-update_scope f k (suc i) (s ∷ ss) = ground (arith, count_open-update_scope f k i ss)

track_op-is_open : (op : Bytes) (s : Scope) → (track_op op s).is_open ≡ s.is_open
unfolding track_op
track_op-is_open op s = elim (Bool-cases (any (bytes_eq op) s.ops)) [
  | inl e ↦ rw (e, track_op) refl
  | inr e ↦ rw (e, track_op) refl
]

count_open-closed :
    (i : ℕ) (ss : List Scope) {s : Scope}
    → scope_at i ss ≡ some s
    → s.is_open ≡ true
    → suc (count_open (update_scope closed_scope i ss)) ≡ count_open ss
unfolding count_open update_scope scope_at
count_open-closed i [] h o = cc
count_open-closed zero (t ∷ ts) {s} h o =
    let same : t ≡ s = ground (arith, h) in
    let shown : t.is_open ≡ true = rw same o in ground (arith, shown)
count_open-closed (suc i) (t ∷ ts) {s} h o = ground (arith, count_open-closed i ts {s = s} h o)

count_open-new_scope :
    (id : ℕ) (ss : List Scope) → count_open (ss ++ new_scope id ∷ []) ≡ suc (count_open ss)
unfolding count_open
count_open-new_scope id [] = refl
count_open-new_scope id (s ∷ ss) = ground (arith, count_open-new_scope id ss)

abbrev engine_of : Engine → Result EngineError Engine → Engine
engine_of d (ok e) = e
engine_of d (err x) = d

registered_in-ok :
    (id : Bytes) (e f : Engine) (o : Option EngineError) (b : Bool)
    → registered_in id e o b ≡ ok f
    → (record e { ops = id ∷ e.ops } ≡ f) × (b ≡ false) × (o ≡ none)
registered_in-ok id e f (some x) b h = cc
registered_in-ok id e f none true h = cc
registered_in-ok id e f none false h = (ap (engine_of e) h, refl, refl)

pub register_controller-ok :
    (id : Bytes) (e f : Engine)
    → register_controller id e ≡ ok f
    → (record e { ops = id ∷ e.ops } ≡ f)
      × (any (bytes_eq id) e.ops ≡ false)
      × (ensure_open e ≡ none)
unfolding register_controller
register_controller-ok id e f h =
    registered_in-ok id e f (ensure_open e) (any (bytes_eq id) e.ops) h

abbrev world_of : World → Result EngineError World → World
world_of d (ok v) = v
world_of d (err x) = d

pub ask_scope-ok :
    (w : World) (p : NestedPolicy) (parent : Option ℕ) (v : World)
    → ask_scope p parent w ≡ ok v
    → (accepting_submissions w.engine ≡ none)
      × (record w { entering = asked p parent ∷ w.entering } ≡ v)
unfolding ask_scope
ask_scope-ok w p parent v h = elim (Option-cases (accepting_submissions w.engine)) [
  | inl e ↦ (e, ground (arith, e, h))
  | inr (x, e) ↦ ground (arith, e, h)
]

IsSound-enter :
    (e : Entry) (others : List Entry) (w : World) → IsSound w → IsSound (enter e others w)
IsSound-enter (asked p parent) others w v = elim (Option-cases (nested_answer p parent)) [
  | inl n ↦ rw (n, enter) record { counted = v.counted; distinct = v.distinct }
  | inr (a, n) ↦ rw (n, enter) record { counted = v.counted; distinct = v.distinct }
]
IsSound-enter (numbered id) others w v = record {
  counted = ap next_ℤ v.counted ∙ ap (λ n. pos n) (omega (arith, count_open-new_scope id w.scopes));
  distinct = v.distinct;
}

IsSound-enter_at : (i : ℕ) (w : World) → IsSound w → IsSound (enter_at i w)
unfolding enter_at
IsSound-enter_at i w v = elim (Option-cases (entry_at i w.entering)) [
  | inl e ↦ rw (e, enter_at) v
  | inr ((d, others), e) ↦ rw (e, enter_at) (IsSound-enter d others w v)
]

IsSound-track_in : (op : Bytes) (i : ℕ) (w : World) → IsSound w → IsSound (track_in op i w)
IsSound-track_in op i w v = record {
  counted =
      v.counted
      ∙ ap (λ n. pos (n + w.leaving))
          (sym (count_open-update_scope (track_op op) (track_op-is_open op) i w.scopes));
  distinct = v.distinct;
}

IsSound-begin_leave : (i : ℕ) (w : World) → IsSound w → IsSound (begin_leave i w)
unfolding begin_leave
IsSound-begin_leave i w v = elim (Option-cases (scope_at i w.scopes)) [
  | inl e ↦ rw (e, begin_leave) v
  | inr (s, e) ↦ elim (Bool-cases (s.is_open)) [
    | inl o ↦
        rw (e, begin_leave, o)
          record {
            counted = v.counted ∙ ap (λ n. pos n) (omega (arith, count_open-closed i w.scopes e o));
            distinct = v.distinct;
          }
    | inr o ↦ rw (e, begin_leave, o) v
  ]
]

one_less : (n m : ℕ) → 0 < m → pred_ℤ (pos (n + m)) ≡ pos (n + (m - 1))
one_less n zero h = absurd (omega (arith, h))
one_less n (suc m) h = ap (λ k. pred_ℤ (pos k)) (before n m) ∙ ap (λ k. pos k) (after n m)
  where
    before : (n m : ℕ) → n + suc m ≡ suc (n + m)
    before n m = omega arith

    after : (n m : ℕ) → n + m ≡ n + (suc m - 1)
    after n m = omega arith

IsSound-end_leave : (w : World) → IsSound w → IsSound (end_leave w)
unfolding end_leave
IsSound-end_leave w v = elim (Bool-cases (ltb 0 w.leaving)) [
  | inl e ↦ rw e record {
    counted = ap pred_ℤ v.counted ∙ one_less (count_open w.scopes) w.leaving (ground (arith, e));
    distinct = v.distinct;
  }
  | inr e ↦ rw e v
]

IsSound-registered :
    (id : Bytes) (w : World) (e : Engine)
    → register_controller id w.engine ≡ ok e
    → IsSound w
    → IsSound record w { engine = e }
IsSound-registered id w e h v =
    let r = register_controller-ok id w.engine e h in
    subst (λ f. IsSound record w { engine = f }) r.0
      record { counted = v.counted; distinct = (r.1, v.distinct) }

IsSound-ask_scope :
    (w : World) (p : NestedPolicy) (parent : Option ℕ) (v : World)
    → ask_scope p parent w ≡ ok v
    → IsSound w
    → IsSound v
IsSound-ask_scope w p parent v h s =
    subst IsSound (ask_scope-ok w p parent v h).1
      record { counted = s.counted; distinct = s.distinct }

IsSound-begin_close : (w : World) → IsSound w → IsSound record w { engine = begin_close w.engine }
unfolding begin_close
IsSound-begin_close w v = record { counted = v.counted; distinct = v.distinct }

IsSound-end_close : (w : World) → IsSound w → IsSound record w { engine = end_close w.engine }
unfolding end_close
IsSound-end_close w v = record { counted = v.counted; distinct = v.distinct }

-- In every state that an engine and its scopes come to from a sound one, in any order of bindings, of
-- the steps of making, using and closing scopes, and of the steps of closing the engine, the engine
-- counts exactly the scopes that are open or whose closing has not come to its end, and no operation
-- is bound twice.
pub Reach-IsSound : {start w : World} → IsSound start → Reach start w → IsSound w
Reach-IsSound v started = v
Reach-IsSound v (registered {w} r id e h) = IsSound-registered id w e h (Reach-IsSound v r)
Reach-IsSound v (closing_begun {w} r) = IsSound-begin_close w (Reach-IsSound v r)
Reach-IsSound v (closing_ended {w} r n) = IsSound-end_close w (Reach-IsSound v r)
Reach-IsSound v (scope_asked {w} r p parent u h) =
    IsSound-ask_scope w p parent u h (Reach-IsSound v r)
Reach-IsSound v (scope_entered {w} r i) = IsSound-enter_at i w (Reach-IsSound v r)
Reach-IsSound v (scope_tracked {w} r op i) = IsSound-track_in op i w (Reach-IsSound v r)
Reach-IsSound v (scope_left {w} r i) = IsSound-begin_leave i w (Reach-IsSound v r)
Reach-IsSound v (scope_counted_out {w} r) = IsSound-end_leave w (Reach-IsSound v r)
