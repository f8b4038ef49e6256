-- ===== src/Runtime/Examples/Bindings.antt =====
-- Concrete engines, scopes, bindings and calls.
use mathlib.Core.List.{Perm}
use batch_weaver.Base.{
  ℕ, ◌≡◌, refl, true, false, [], ◌∷◌, none, some, pos, negsuc, Bytes, bytes_eq, ◌==◌, ok, err,
}
use batch_weaver.Operation.Text.{split, after_prefix, cut, contains, ends_with}
use batch_weaver.Operation.Id.{check_characters, validate_segment, check_segments, validate_id}
use batch_weaver.Operation.Symbol.{is_no_symbol}
use batch_weaver.Operation.Kind.{kind_effect}
use batch_weaver.Operation.Semantics.{validate_semantics, read_only}
use batch_weaver.Operation.Results.{validate_result}
use batch_weaver.Operation.Partitions.{check_dimensions, validate_partition}
use batch_weaver.Operation.Contracts.{validate_key}
use batch_weaver.Operation.Policies.{
  default_deduplication_policy, validate_scheduler, is_dedup_enabled, validate_deduplication,
  validate_retry, validate_fallback,
}
use batch_weaver.Operation.Spec.{
  Spec, is_config_based, validate_cross_field, validate, default_spec,
}
use batch_weaver.Runtime.Policy.{merge}
use batch_weaver.Runtime.State.{SubmitReq, Coordinator}
use batch_weaver.Runtime.Loop.{submitted, new_coordinator, round}
use batch_weaver.Runtime.Submit.{handle_submit}
use batch_weaver.Runtime.Bounded.{IsBounded}
use batch_weaver.Runtime.Bounded.Reach.{bound, stepped}
use batch_weaver.Runtime.Memo.{KeyStrategy}
use batch_weaver.Runtime.Engine.{
  GivenLimits, has_negative, Engine, opened, closed, ensure_open, accepting_submissions,
  register_controller, fresh_engine, sort_ids, close,
}
use batch_weaver.Runtime.Engine.Closing.{close-settled}
use batch_weaver.Runtime.Scope.{
  World, isolate_child, asked, ask_scope, new_scope, entry_at, enter_at, scope_at, update_scope,
  begin_leave,
}
use batch_weaver.Runtime.Lifecycle.{
  started, scope_asked, scope_entered, scope_left, count_open, IsSound, Reach-IsSound,
}
use batch_weaver.Runtime.Lifecycle.Frozen.{IsFrozen, Reach-IsFrozen}
use batch_weaver.Runtime.Binding.{
  Binding, Bound, no_keys, normalize_flush_mode, bound_config, new_bound, bind,
}
use batch_weaver.Runtime.Binding.Laws.Bounds.{
  IsConfigOf, IsLimiting, bind-IsConfigOf, bind-IsLimiting, bind-IsBounded,
}
use batch_weaver.Runtime.Binding.Laws.Causes.{IsCause, bind-IsCause}
use batch_weaver.Runtime.Caller.{
  Call, returned, submits, executing, recover_callback, call_weight, call_bytes, request,
  remember_or_request, prepare, arrives, context_done, gives_up, external, await,
}
use batch_weaver.Runtime.Caller.Laws.{IsSubmissible, prepare-IsSubmissible}
use batch_weaver.Runtime.Caller.Waiting.{IsTidy, apply_cancels, await-IsTidy, await-left_early}
use batch_weaver.Runtime.Examples.{waiter, busy}
use batch_weaver.Runtime.Examples as Runs

-- "users.get"
abbrev users_get : Bytes
users_get = 117 ∷ 115 ∷ 101 ∷ 114 ∷ 115 ∷ 46 ∷ 103 ∷ 101 ∷ 116 ∷ []

-- A read whose deduplication mode is disabled, with in-flight deduplication asked for.
abbrev spec : Spec
spec = record (default_spec users_get read_only) {
  deduplication_policy = record default_deduplication_policy { in_flight = true };
}

abbrev keys : KeyStrategy ℕ
keys = record { hash = λ k. k; equal = λ a b. a == b; estimate_bytes = λ _. 8 }

abbrev no_limits : GivenLimits
no_limits = record {
  max_items = pos 0;
  max_waiters = pos 0;
  max_bytes = pos 0;
  max_weight = pos 0;
  max_partitions = pos 0;
}

abbrev binding : Binding ℕ
binding = record {
  has_provider = true;
  keys = some keys;
  has_fallback = false;
  limits = no_limits;
  overflow = none;
  require_scope = false;
  enable_memoization = false;
}

abbrev bound_users : Bound ℕ × Engine
bound_users =
    (new_bound fresh_engine spec binding keys, record fresh_engine { ops = users_get ∷ [] })

bound_lem : bind fresh_engine spec binding ≡ ok bound_users
unfolding bind ensure_open register_controller has_negative bound_config merge normalize_flush_mode
    validate validate_cross_field is_config_based is_dedup_enabled is_no_symbol validate_id
    check_segments validate_segment check_characters split ends_with contains cut after_prefix
    bytes_eq validate_semantics kind_effect validate_key validate_result validate_partition
    check_dimensions validate_scheduler validate_deduplication validate_retry validate_fallback
bound_lem = refl

bind-IsConfigOf_example : IsConfigOf spec.scheduler_policy (bound_users.0.config)
bind-IsConfigOf_example = bind-IsConfigOf fresh_engine spec binding bound_users bound_lem

bind-IsLimiting_example : IsLimiting (bound_users.0.config.limits)
bind-IsLimiting_example = bind-IsLimiting fresh_engine spec binding bound_users bound_lem

abbrev first_round : Coordinator ℕ ℕ ℕ
first_round =
    (round 9 (λ _. false) (submitted (Runs.request 1)) (new_coordinator (bound_users.0.config))).0

bind-IsBounded_example : IsBounded first_round
bind-IsBounded_example =
    bind-IsBounded fresh_engine spec binding bound_users bound_lem
      (stepped bound 9 (λ _. false) (submitted (Runs.request 1)))

unkeyed : bind fresh_engine spec (record binding { keys = none }) ≡ err no_keys
unfolding bind ensure_open register_controller has_negative bound_config merge normalize_flush_mode
    validate validate_cross_field is_config_based is_dedup_enabled is_no_symbol validate_id
    check_segments validate_segment check_characters split ends_with contains cut after_prefix
    bytes_eq validate_semantics kind_effect validate_key validate_result validate_partition
    check_dimensions validate_scheduler validate_deduplication validate_retry validate_fallback
unkeyed = refl

bind-IsCause_example : IsCause fresh_engine spec (record binding { keys = none }) no_keys
bind-IsCause_example =
    bind-IsCause fresh_engine spec (record binding { keys = none }) no_keys unkeyed

abbrev new_world : World
new_world = record { engine = fresh_engine; scopes = []; entering = []; leaving = 0 }

new_world-IsSound : IsSound new_world
unfolding count_open
new_world-IsSound = record { counted = refl; distinct = tt }

abbrev asked_world : World
asked_world = record new_world { entering = asked isolate_child none ∷ [] }

one_call : ask_scope isolate_child none new_world ≡ ok asked_world
unfolding ask_scope accepting_submissions
one_call = refl

-- A scope is made, and its `Close` waits for a flush.
abbrev left_world : World
left_world = begin_leave 0 (enter_at 0 (enter_at 0 asked_world))

left_world-engine : left_world.engine ≡ record fresh_engine { scope_seq = 1; active_scopes = pos 1 }
unfolding begin_leave enter_at entry_at scope_at update_scope
left_world-engine = refl

Reach-IsSound_example : IsSound left_world
Reach-IsSound_example = Reach-IsSound new_world-IsSound (
    scope_left
      (scope_entered (scope_entered (scope_asked started isolate_child none asked_world one_call) 0)
        0)
      0)

-- The engine is closed between the test of `NewScope` and the making of the scope.
abbrev closing_world : World
closing_world = record asked_world { engine = record (bound_users.1) { state = closed } }

abbrev late_world : World
late_world = enter_at 0 (enter_at 0 closing_world)

late_scope : late_world.scopes ≡ new_scope 1 ∷ []
unfolding enter_at entry_at
late_scope = refl

Reach-IsFrozen_example : IsFrozen closing_world late_world
Reach-IsFrozen_example = Reach-IsFrozen refl (scope_entered (scope_entered started 0) 0)

close-settled_example :
    let r = close (λ c. some c) none (bound_users.1) in
    (r.1.state ≡ closed)
    × (r.0.1 ≡ sort_ids (users_get ∷ []))
    × Perm (users_get ∷ []) (r.0.1)
    × (close (λ c. some c) none (r.1) ≡ ((none, []), r.1))
close-settled_example = close-settled (λ c. some c) none (bound_users.1) refl

-- A call in an open scope, whose provider runs another operation.
abbrev call : Call ℕ ℕ ℕ
call = record {
  ctx_error = none;
  frames = record { op_id = 1 ∷ []; part = 7 ∷ [] } ∷ [];
  scope_open = some true;
  engine_state = opened;
  op_id = users_get;
  has_fallback = false;
  require_scope = false;
  memo_enabled = false;
  repanic = false;
  partition = returned (ok (7 ∷ []));
  clone = returned 3;
  memo = λ _ _. none;
  hash = λ k. returned k;
  weight_of = none;
  bytes_of = λ _. returned (negsuc 4);
  waiter = waiter 1;
  taken = 0;
}

abbrev submission : SubmitReq ℕ
submission = record {
  part = 7 ∷ [];
  key = 3;
  hash = 3;
  weight = 1;
  bytes = 0;
  waiter = waiter 1;
  taken = 0;
}

call-submission : prepare call ≡ submits submission
unfolding prepare remember_or_request request executing bytes_eq recover_callback call_weight
    call_bytes
call-submission = refl

prepare-IsSubmissible_example : IsSubmissible call submission
prepare-IsSubmissible_example = prepare-IsSubmissible call submission call-submission

await-IsTidy_example :
    IsTidy {V = ℕ} {X = ℕ} true 3
      (await true (7 ∷ []) 3 (arrives tt) (arrives none) (context_done 5 none))
await-IsTidy_example = await-IsTidy true (7 ∷ []) 3 (arrives none) (context_done 5 none)

-- The request was admitted before the call left.
await-left_early_example :
    let r =
      await {V = ℕ} {X = ℕ} true
        (7 ∷ [])
        3
        (arrives tt)
        (context_done 5 none)
        (context_done 5 none) in
    let c = handle_submit 9 (Runs.request 3) busy in
    (r.0 ≡ gives_up (external 5))
    × ((apply_cancels (r.1) c).partitions ≡ c.partitions)
    × ((apply_cancels (r.1) c).inflight ≡ c.inflight)
    × ((apply_cancels (r.1) c).log ≡ c.log)
await-left_early_example =
    await-left_early true (7 ∷ []) 3 5 (context_done 5 none) (handle_submit 9 (Runs.request 3) busy)
