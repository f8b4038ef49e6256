-- ===== src/Runtime/Caller.antt =====
-- The caller's side of runtime/binding.go: `Do` up to the submission and from it on, the wrappers of
-- the callbacks, and the detection of recursion. What the context, the callbacks and the channels
-- do comes from outside: each `select` is the choice that it makes. `X` stands for the errors of
-- contexts and callbacks.
pub mod Laws
pub mod Waiting
use batch_weaver.Base.{
  ℕ, Bool, true, false, not, ◌&&◌, ◌||◌, List, [], ◌∷◌, Option, none, some, ℤ, pos, pos_part, ltb_ℤ,
  Bytes, bytes_eq, if◌then◌else◌, Result, ok, err,
}
use batch_weaver.Runtime.State.{CallError, CallResult, Waiter, SubmitReq, CancelReq}
use batch_weaver.Runtime.Engine.{EngineState, EngineError, refuse_submission}

-- `execFrame`; a context carries the frames of the provider calls that it runs in, innermost first.
pub record ExecFrame : Type 0 where
  pub op_id : Bytes
  pub part : Bytes

-- `markExec`
abbrev pub mark_exec : Bytes → Bytes → List ExecFrame → List ExecFrame
mark_exec op part fs = record { op_id = op; part = part } ∷ fs

unfoldable pub executing : Bytes → Bytes → List ExecFrame → Bool
unfolding bytes_eq
executing op part [] = false
executing op part (f ∷ fs) = (bytes_eq f.op_id op && bytes_eq f.part part) || executing op part fs

-- What a callback does.
pub data Called (A : Type 0) : Type 0 where
  returned : A → Called A
  panicked : Bytes → Called A

pub data Callback : Type 0 where
  partitioner key_clone key_hash weight key_size : Callback

pub data DoError (X : Type 0) : Type 0 where
  external : X → DoError X
  scope_required scope_closed recursive_operation invalid_weight missing_result : DoError X
  engine_refuses : EngineError → DoError X
  callback_panic : Callback → Bytes → DoError X
  call_error : CallError X → DoError X
  -- A panic that the policy passes on.
  repanicked : Bytes → DoError X

module _ {X A : Type 0} where
  -- `recoverCallback` around a callback.
  unfoldable pub recover_callback : Bool → Callback → Called (Result X A) → Result (DoError X) A
  recover_callback repanic name (returned (ok a)) = ok a
  recover_callback repanic name (returned (err x)) = err (external x)
  recover_callback repanic name (panicked v) =
      if repanic then err (repanicked v) else err (callback_panic name v)

  abbrev pub sure : Called A → Called (Result X A)
  sure (returned a) = returned (ok a)
  sure (panicked v) = panicked v

module _ {X : Type 0} where
  -- `callWeight`, from the weight callback's answer, if there is a callback.
  unfoldable pub call_weight : Bool → Option (Called ℤ) → Result (DoError X) ℕ
  unfolding recover_callback
  call_weight repanic none = ok 1
  call_weight repanic (some (panicked v)) =
      if repanic then err (repanicked v) else err (callback_panic weight v)
  call_weight repanic (some (returned w)) =
      if ltb_ℤ w (pos 0) then err invalid_weight else ok (pos_part w)

  -- `callBytes`: a negative estimate is none.
  unfoldable pub call_bytes : Bool → Called ℤ → Result (DoError X) ℕ
  call_bytes repanic (panicked v) =
      if repanic then err (repanicked v) else err (callback_panic key_size v)
  call_bytes repanic (returned n) = ok (if ltb_ℤ n (pos 0) then 0 else pos_part n)

-- The context of a call, the operation, and what the callbacks do. `scope_open` is the state of the
-- scope that the context carries, if any; `memo` is the lookup in that scope's table.
pub record Call (K V X : Type 0) : Type 0 where
  pub ctx_error : Option X
  pub frames : List ExecFrame
  pub scope_open : Option Bool
  pub engine_state : EngineState
  pub op_id : Bytes
  pub has_fallback : Bool
  pub require_scope : Bool
  pub memo_enabled : Bool
  pub repanic : Bool
  pub partition : Called (Result X Bytes)
  pub clone : Called K
  pub memo : Bytes → K → Option (Option V × Bool)
  pub hash : K → Called ℕ
  pub weight_of : Option (K → Called ℤ)
  pub bytes_of : K → Called ℤ
  pub waiter : Waiter
  pub taken : ℕ

-- What `Do` does before it waits.
pub data Decision (K V X : Type 0) : Type 0 where
  fails : DoError X → Decision K V X
  falls_back : Decision K V X
  remembers : Option V × Bool → Decision K V X
  submits : SubmitReq K → Decision K V X

module _ {K V X : Type 0} where
  abbrev pub with_ok : {A : Type 0} → Result (DoError X) A → (A → Decision K V X) → Decision K V X
  with_ok (ok a) f = f a
  with_ok (err e) f = fails e

  -- Where a direct call is allowed instead.
  abbrev pub fallback_or : Call K V X → DoError X → Decision K V X
  fallback_or c e = if c.has_fallback && not c.require_scope then falls_back else fails e

  abbrev pub weight_for : Call K V X → K → Option (Called ℤ)
  weight_for c k = elim (c.weight_of) [ some w ↦ some (w k) | none ↦ none ]

  abbrev pub submission : Call K V X → Bytes → K → ℕ → ℕ → ℕ → SubmitReq K
  submission c part k h w n = record {
    part = part;
    key = k;
    hash = h;
    weight = w;
    bytes = n;
    waiter = c.waiter;
    taken = c.taken;
  }

  -- The callbacks for the hash, the weight and the size.
  abbrev pub measured : Call K V X → Bytes → K → Decision K V X
  measured c part k = with_ok (recover_callback c.repanic key_hash (sure (c.hash k))) (λ h.
      with_ok (call_weight c.repanic (weight_for c k)) (λ w.
        with_ok (call_bytes c.repanic (c.bytes_of k)) (λ n. submits (submission c part k h w n))))

  -- From the recursion test on.
  unfoldable pub request : Call K V X → Bytes → K → Decision K V X
  unfolding executing recover_callback call_weight call_bytes
  request c part k =
      if executing c.op_id part c.frames
      then (if c.has_fallback then falls_back else fails recursive_operation)
      else measured c part k

  -- With a scope, from the engine's state on.
  unfoldable pub remember_or_request : Call K V X → Bytes → K → Decision K V X
  unfolding request
  remember_or_request c part k = elim (if c.memo_enabled then c.memo part k else none) [
    | some r ↦ remembers r
    | none ↦ request c part k
  ]

  abbrev pub in_engine : Call K V X → Bytes → Option EngineError → Decision K V X
  in_engine c part (some e) = fallback_or c (engine_refuses e)
  in_engine c part none =
      with_ok (recover_callback c.repanic key_clone (sure c.clone)) (remember_or_request c part)

  abbrev pub in_scope : Call K V X → Bytes → Option Bool → Decision K V X
  in_scope c part none = fallback_or c scope_required
  in_scope c part (some false) = fails scope_closed
  in_scope c part (some true) = in_engine c part (refuse_submission c.engine_state)

  -- `Do` up to its submission.
  unfoldable pub prepare : Call K V X → Decision K V X
  unfolding recover_callback remember_or_request
  prepare c = elim (c.ctx_error) [
    | some x ↦ fails (external x)
    | none ↦
        with_ok (recover_callback c.repanic partitioner c.partition)
          (λ part. in_scope c part c.scope_open)
  ]

-- What a `select` of the waiting caller picks. With the context done, `late` is what the inner
-- `select` finds.
pub data Pick (A X : Type 0) : Type 0 where
  arrives : A → Pick A X
  context_done : X → Option A → Pick A X
  coordinator_done : Pick A X

pub data Waited (V X : Type 0) : Type 0 where
  gives_up : DoError X → Waited V X
  runs_fallback : Waited V X
  finishes : CallResult V X → Waited V X

module _ {V X : Type 0} where
  -- `sendCancel` and the return. Its `select` sends the cancellation or finds the coordinator done.
  abbrev pub leave : Bool → CancelReq → X → Waited V X × List CancelReq
  leave sent r x = (gives_up (external x), if sent then r ∷ [] else [])

  -- The last select: the result.
  unfoldable pub await_result :
      Bool → Bytes → ℕ → Pick (CallResult V X) X → Waited V X × List CancelReq
  await_result sent part w (arrives r) = (finishes r, [])
  await_result sent part w (context_done x (some r)) = (finishes r, [])
  await_result sent part w (context_done x none) =
      leave sent record { part = part; waiter_id = w; blocked = false } x
  await_result sent part w coordinator_done = (gives_up (call_error CallError.engine_closed), [])

  -- After the reply, which is an error or none.
  abbrev pub after_reply :
      Bool
      → Bytes
      → ℕ
      → Option (CallError X)
      → Pick (CallResult V X) X
      → Waited V X × List CancelReq
  after_reply sent part w none result = await_result sent part w result
  after_reply sent part w (some CallError.fallback_sentinel) result = (runs_fallback, [])
  after_reply sent part w (some e) result = (gives_up (call_error e), [])

  -- The second select: the reply to the submission.
  unfoldable pub await_reply :
      Bool
      → Bytes
      → ℕ
      → Pick (Option (CallError X)) X
      → Pick (CallResult V X) X
      → Waited V X × List CancelReq
  unfolding await_result
  await_reply sent part w (arrives admit) result = after_reply sent part w admit result
  await_reply sent part w (context_done x (some admit)) result =
      after_reply sent part w admit result
  await_reply sent part w (context_done x none) result =
      leave sent record { part = []; waiter_id = w; blocked = true } x
  await_reply sent part w coordinator_done result =
      (gives_up (call_error CallError.engine_closed), [])

  -- `Do` from its submission on; the first pick is that of sending the request, and `sent` is what the
  -- `select` of a cancellation picks.
  unfoldable pub await :
      Bool
      → Bytes
      → ℕ
      → Pick Unit X
      → Pick (Option (CallError X)) X
      → Pick (CallResult V X) X
      → Waited V X × List CancelReq
  unfolding await_reply
  await sent part w (arrives _) reply result = await_reply sent part w reply result
  await sent part w (context_done x _) reply result = (gives_up (external x), [])
  await sent part w coordinator_done reply result =
      (gives_up (call_error CallError.engine_closed), [])
