-- ===== src/Runtime/Scope.antt =====
-- runtime/scope.go: scopes, and their engine's account of them. A scope is named by its position among
-- the scopes that were made, which stand beside the engine, as a pointer names it in Go. A call of
-- `NewScope` or of `Scope.Close` takes several steps, between which others may come; so the calls that
-- are on their way stand beside the engine too. `ops` are the operations that a scope tracks, a set
-- in Go, whose order of iteration is left open there and is the order of first use here.
use batch_weaver.Base.{
  ℕ, zero, suc, ◌+◌, ◌-◌, Bool, true, false, List, [], ◌∷◌, ◌++◌, Option, none, some, ℤ, pos,
  negsuc, pred_ℤ, Bytes, bytes_eq, ltb, any, if◌then◌else◌, Result, ok, err,
}
use batch_weaver.Runtime.State.{u64}
use batch_weaver.Runtime.Engine.{
  Engine, EngineError, nested_scope, accepting_submissions, flush_all, close_all,
}

pub record Scope : Type 0 where
  pub id : ℕ
  pub is_open : Bool
  pub ops : List Bytes

pub data NestedPolicy : Type 0 where
  isolate_child reuse_parent reject_nested : NestedPolicy

-- A call of `NewScope` that the engine did not refuse, with the scope that its context carries, if
-- any; then one that has the number of its scope.
pub data Entry : Type 0 where
  asked : NestedPolicy → Option ℕ → Entry
  numbered : ℕ → Entry

-- An engine, the scopes that it made, the calls of `NewScope` on their way, and the number of calls
-- of `Scope.Close` that have closed their scope and have not counted it out.
pub record World : Type 0 where
  pub engine : Engine
  pub scopes : List Scope
  pub entering : List Entry
  pub leaving : ℕ

-- `n++`
abbrev pub next_ℤ : ℤ → ℤ
next_ℤ (pos n) = pos (suc n)
next_ℤ (negsuc zero) = pos 0
next_ℤ (negsuc (suc n)) = negsuc n

-- The first step of `NewScope`: the test of the engine.
unfoldable pub ask_scope : NestedPolicy → Option ℕ → World → Result EngineError World
unfolding accepting_submissions
ask_scope p parent w = elim (accepting_submissions w.engine) [
  | some e ↦ err e
  | none ↦ ok record w { entering = asked p parent ∷ w.entering }
]

-- The switch of `NewScope` on a scope that the context carries already: an answer, or none.
abbrev pub nested_answer : NestedPolicy → Option ℕ → Option (Result EngineError ℕ)
nested_answer reuse_parent (some i) = some (ok i)
nested_answer reject_nested (some i) = some (err nested_scope)
nested_answer _ _ = none

abbrev pub new_scope : ℕ → Scope
new_scope id = record { id = id; is_open = true; ops = [] }

-- The next step of a call of `NewScope`, with the other calls on their way: its answer, or the number
-- of its scope; then the scope, which is counted in.
abbrev pub enter : Entry → List Entry → World → World
enter (asked p parent) others w = elim (nested_answer p parent) [
  | some _ ↦ record w { entering = others }
  | none ↦
      let id = u64 (w.engine.scope_seq + 1) in
      record w { engine = record (w.engine) { scope_seq = id }; entering = numbered id ∷ others }
]
enter (numbered id) others w = record w {
  engine = record (w.engine) { active_scopes = next_ℤ w.engine.active_scopes };
  scopes = w.scopes ++ new_scope id ∷ [];
  entering = others;
}

-- An entry, and the others.
unfoldable pub entry_at : ℕ → List Entry → Option (Entry × List Entry)
entry_at i [] = none
entry_at zero (e ∷ es) = some (e, es)
entry_at (suc i) (e ∷ es) = elim (entry_at i es) [ none ↦ none | some (d, ds) ↦ some (d, e ∷ ds) ]

-- The next step of one of the calls on their way.
unfoldable pub enter_at : ℕ → World → World
unfolding entry_at
enter_at i w = elim (entry_at i w.entering) [ none ↦ w | some (e, others) ↦ enter e others w ]

-- `trackOp`
unfoldable pub track_op : Bytes → Scope → Scope
unfolding bytes_eq
track_op op s = if any (bytes_eq op) s.ops then s else record s { ops = s.ops ++ op ∷ [] }

-- `checkOpen`
abbrev pub check_open : Scope → Bool
check_open s = s.is_open

abbrev pub closed_scope : Scope → Scope
closed_scope s = record s { is_open = false; ops = [] }

-- The answer of `Close`: the first error, and the operations that were flushed and whose memory of
-- the scope was dropped.
unfoldable pub close_scope :
    {X : Type 0} → (Bytes → Option X) → Scope → (Option X × List Bytes) × Scope
unfolding close_all
close_scope answer s =
    if s.is_open then (close_all answer s.ops, closed_scope s) else ((none, []), s)

-- `Scope.Flush` and `Scope.Drain`, which the first error ends.
abbrev pub ask_tracked : {X : Type 0} → (Bytes → Option X) → Scope → Option X × List Bytes
ask_tracked answer s = flush_all answer s.ops

-- A change of the scope at a position.
unfoldable pub update_scope : (Scope → Scope) → ℕ → List Scope → List Scope
update_scope f i [] = []
update_scope f zero (t ∷ ts) = f t ∷ ts
update_scope f (suc i) (t ∷ ts) = t ∷ update_scope f i ts

unfoldable pub scope_at : ℕ → List Scope → Option Scope
scope_at i [] = none
scope_at zero (t ∷ ts) = some t
scope_at (suc i) (t ∷ ts) = scope_at i ts

-- `trackOp` on a scope of the world.
abbrev pub track_in : Bytes → ℕ → World → World
track_in op i w = record w { scopes = update_scope (track_op op) i w.scopes }

-- `Scope.Close` on a scope of the world: first, the scope is closed, once; then its operations are
-- flushed; then the engine counts one scope less.
unfoldable pub begin_leave : ℕ → World → World
unfolding update_scope scope_at
begin_leave i w = elim (scope_at i w.scopes) [
  | none ↦ w
  | some s ↦
      if s.is_open
      then record w { scopes = update_scope closed_scope i w.scopes; leaving = w.leaving + 1 }
      else w
]

unfoldable pub end_leave : World → World
end_leave w =
    if ltb 0 w.leaving
    then record w {
      engine = record (w.engine) { active_scopes = pred_ℤ w.engine.active_scopes };
      leaving = w.leaving - 1;
    }
    else w
