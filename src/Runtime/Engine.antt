-- ===== src/Runtime/Engine.antt =====
-- runtime/engine.go and runtime/engine_options.go, and `Validate` of runtime/policy.go: an engine, its
-- registry of bound operations and its lifecycle. Operations are named by their identifiers, which
-- are the keys of the map `ops`. What the operations answer to `flush` and `close`, and whether the
-- coordinators end before the caller's context, comes from outside. Hooks, the clock and the
-- statistics switch are not kept.
pub mod Closing
use batch_weaver.Base.{
  ℕ, Bool, true, false, ◌||◌, List, [], ◌∷◌, Option, none, some, ℤ, pos, pos_part, ltb_ℤ, Bytes,
  bytes_eq, bytes_lt, ltb, ◌==◌, any, or_else, if◌then◌else◌, Result, ok, err,
}
use batch_weaver.Runtime.Policy.{QueueLimits, OverflowPolicy, reject, block, fallback}

pub data EngineState : Type 0 where
  opened closing closed : EngineState

-- `QueueLimits` as they are given; the valid ones are the limits of Runtime/Policy.
pub record GivenLimits : Type 0 where
  pub max_items : ℤ
  pub max_waiters : ℤ
  pub max_bytes : ℤ
  pub max_weight : ℤ
  pub max_partitions : ℤ

-- `QueueLimits.Validate` gives an error.
unfoldable pub has_negative : GivenLimits → Bool
has_negative l =
    ltb_ℤ l.max_items (pos 0)
    || (ltb_ℤ l.max_waiters (pos 0)
        || (ltb_ℤ l.max_bytes (pos 0)
            || (ltb_ℤ l.max_weight (pos 0) || ltb_ℤ l.max_partitions (pos 0))))

abbrev pub as_limits : GivenLimits → QueueLimits
as_limits l = record {
  max_items = pos_part l.max_items;
  max_waiters = pos_part l.max_waiters;
  max_bytes = pos_part l.max_bytes;
  max_weight = pos_part l.max_weight;
  max_partitions = pos_part l.max_partitions;
}

pub record Engine : Type 0 where
  pub state : EngineState
  pub ops : List Bytes
  pub default_limits : QueueLimits
  pub default_overflow : OverflowPolicy
  pub repanic : Bool
  pub scope_seq : ℕ
  pub active_scopes : ℤ

pub data EngineError : Type 0 where
  engine_closing engine_closed already_bound invalid_option nested_scope : EngineError

-- The policies are numbers in Go, of which `WithDefaultOverflowPolicy` and `WithPanicPolicy` refuse
-- the unknown ones.
pub data EngineOption : Type 0 where
  with_clock : Bool → EngineOption
  with_default_queue_limits : GivenLimits → EngineOption
  with_default_overflow_policy with_panic_policy : ℕ → EngineOption
  with_hooks : EngineOption
  with_statistics : Bool → EngineOption

unfoldable pub apply_option : EngineOption → Engine → Result EngineError Engine
unfolding has_negative
apply_option (with_clock given) e = if given then ok e else err invalid_option
apply_option (with_default_queue_limits l) e =
    if has_negative l then err invalid_option else ok record e { default_limits = as_limits l }
apply_option (with_default_overflow_policy n) e =
    if n == 0
    then ok record e { default_overflow = reject }
    else if n == 1
    then ok record e { default_overflow = fallback }
    else if n == 2
    then ok record e { default_overflow = block }
    else err invalid_option
apply_option (with_panic_policy n) e =
    if ltb 1 n then err invalid_option else ok record e { repanic = n == 1 }
apply_option with_hooks e = ok e
apply_option (with_statistics _) e = ok e

unfoldable pub apply_engine_options : List EngineOption → Engine → Result EngineError Engine
unfolding apply_option
apply_engine_options [] e = ok e
apply_engine_options (o ∷ os) e = elim (apply_option o e) [
  | ok e' ↦ apply_engine_options os e'
  | err x ↦ err x
]

abbrev pub fresh_engine : Engine
fresh_engine = record {
  state = opened;
  ops = [];
  default_limits = record {
    max_items = 100000;
    max_waiters = 0;
    max_bytes = 67108864;
    max_weight = 0;
    max_partitions = 10000;
  };
  default_overflow = reject;
  repanic = false;
  scope_seq = 0;
  active_scopes = pos 0;
}

-- `NewEngine`
abbrev pub new_engine : List EngineOption → Result EngineError Engine
new_engine options = apply_engine_options options fresh_engine

abbrev pub refuse_submission : EngineState → Option EngineError
refuse_submission opened = none
refuse_submission closing = some engine_closing
refuse_submission closed = some engine_closed

-- `acceptingSubmissions`
unfoldable pub accepting_submissions : Engine → Option EngineError
accepting_submissions e = refuse_submission e.state

abbrev pub is_opened : EngineState → Bool
is_opened opened = true
is_opened closing = false
is_opened closed = false

-- `ensureOpen`
unfoldable pub ensure_open : Engine → Option EngineError
ensure_open e = if is_opened e.state then none else some engine_closing

-- `registerController`, from the answers of its two tests.
abbrev pub registered_in : Bytes → Engine → Option EngineError → Bool → Result EngineError Engine
registered_in id e (some x) bound = err x
registered_in id e none true = err already_bound
registered_in id e none false = ok record e { ops = id ∷ e.ops }

unfoldable pub register_controller : Bytes → Engine → Result EngineError Engine
unfolding ensure_open bytes_eq
register_controller id e = registered_in id e (ensure_open e) (any (bytes_eq id) e.ops)

unfoldable pub insert_id : Bytes → List Bytes → List Bytes
unfolding bytes_lt
insert_id x [] = x ∷ []
insert_id x (y ∷ ys) = let rest = insert_id x ys in if bytes_lt y x then y ∷ rest else x ∷ y ∷ ys

unfoldable pub sort_ids : List Bytes → List Bytes
unfolding insert_id
sort_ids [] = []
sort_ids (x ∷ xs) = insert_id x (sort_ids xs)

-- `controllersSnapshot`
abbrev pub controllers_snapshot : Engine → List Bytes
controllers_snapshot e = sort_ids e.ops

module _ {X : Type 0} (answer : Bytes → Option X) where
  -- The loop of `Flush`, which the first error ends: the error, and the operations flushed.
  unfoldable pub flush_all : List Bytes → Option X × List Bytes
  flush_all [] = (none, [])
  flush_all (c ∷ cs) =
      let rest = flush_all cs in
      elim (answer c) [ some x ↦ (some x, c ∷ []) | none ↦ (rest.0, c ∷ rest.1) ]

  -- The loop of `Close`, which keeps the first error and goes on.
  unfoldable pub close_all : List Bytes → Option X × List Bytes
  close_all [] = (none, [])
  close_all (c ∷ cs) = let rest = close_all cs in (or_else (answer c) rest.0, c ∷ rest.1)

  -- `Flush`
  unfoldable pub flush : Engine → Option X × List Bytes
  unfolding flush_all sort_ids
  flush e = flush_all (controllers_snapshot e)

abbrev pub no_longer_open : EngineState → EngineState
no_longer_open opened = closing
no_longer_open closing = closing
no_longer_open closed = closed

abbrev pub is_closed : EngineState → Bool
is_closed opened = false
is_closed closing = false
is_closed closed = true

-- The start of `Close`.
unfoldable pub begin_close : Engine → Engine
begin_close e = record e { state = no_longer_open e.state }

-- Its end.
unfoldable pub end_close : Engine → Engine
end_close e = record e { state = closed }

-- `Close`, with nothing else happening meanwhile; `drain` is the error of waiting for the
-- coordinators. Its error, the operations asked to close, and the engine after it.
unfoldable pub close :
    {X : Type 0} → (Bytes → Option X) → Option X → Engine → (Option X × List Bytes) × Engine
unfolding close_all sort_ids begin_close end_close
close answer drain e =
    let asked = close_all answer (controllers_snapshot (begin_close e)) in
    if is_closed e.state
    then ((none, []), e)
    else ((or_else asked.0 drain, asked.1), end_close (begin_close e))
