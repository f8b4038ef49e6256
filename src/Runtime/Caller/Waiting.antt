-- ===== src/Runtime/Caller/Waiting.antt =====
-- How a waiting call ends (`Do` of runtime/binding.go), and what becomes of its place in the queue.
use batch_weaver.Base.{
  Bool, true, false, if◌then◌else◌, ℕ, ◌≡◌, refl, List, [], ◌∷◌, Option, none, some, Bytes,
}
use batch_weaver.Runtime.State.{CallError, CallResult, CancelReq, Coordinator}
use batch_weaver.Runtime.Cancel.{handle_cancel}
use batch_weaver.Runtime.Caller.{
  external, Pick, arrives, context_done, coordinator_done, Waited, gives_up, after_reply,
  await_result, await,
}

-- The cancellations of a call that leaves.
abbrev pub IsTold : Bool → ℕ → List CancelReq → Type 0
IsTold true w rs = (r : CancelReq) × (rs ≡ r ∷ []) × (r.waiter_id ≡ w)
IsTold false w rs = rs ≡ []

left-IsTold : (sent : Bool) (r : CancelReq) → IsTold sent r.waiter_id (if sent then r ∷ [] else [])
left-IsTold true r = (r, refl, refl)
left-IsTold false r = refl

module _ {V X : Type 0} where
  -- Only a call that gives up for its context's sake sends a cancellation, one that names it, if the
  -- coordinator takes it; nobody is told of any other end.
  abbrev pub IsTidy : Bool → ℕ → Waited V X × List CancelReq → Type 0
  IsTidy sent w (gives_up (external x), rs) = IsTold sent w rs
  IsTidy sent w (_, rs) = rs ≡ []

  await_result-IsTidy :
      (sent : Bool) (part : Bytes) (w : ℕ) (p : Pick (CallResult V X) X)
      → IsTidy sent w (await_result sent part w p)
  unfolding await_result
  await_result-IsTidy sent part w (arrives r) = refl
  await_result-IsTidy sent part w (context_done x (some r)) = refl
  await_result-IsTidy sent part w (context_done x none) =
      left-IsTold sent record { part = part; waiter_id = w; blocked = false }
  await_result-IsTidy sent part w coordinator_done = refl

  after_reply-IsTidy :
      (sent : Bool) (part : Bytes) (w : ℕ) (o : Option (CallError X)) (p : Pick (CallResult V X) X)
      → IsTidy sent w (after_reply sent part w o p)
  after_reply-IsTidy sent part w none p = await_result-IsTidy sent part w p
  after_reply-IsTidy sent part w (some CallError.engine_closing) p = refl
  after_reply-IsTidy sent part w (some CallError.engine_closed) p = refl
  after_reply-IsTidy sent part w (some CallError.fallback_sentinel) p = refl
  after_reply-IsTidy sent part w (some CallError.item_too_large) p = refl
  after_reply-IsTidy sent part w (some CallError.flush_timeout) p = refl
  after_reply-IsTidy sent part w (some CallError.drain_timeout) p = refl
  after_reply-IsTidy sent part w (some (CallError.partition_limit y)) p = refl
  after_reply-IsTidy sent part w (some (CallError.queue_full y)) p = refl
  after_reply-IsTidy sent part w (some (CallError.contract_request y)) p = refl
  after_reply-IsTidy sent part w (some (CallError.contract_response y)) p = refl
  after_reply-IsTidy sent part w (some (CallError.provider_panic y)) p = refl
  after_reply-IsTidy sent part w (some (CallError.external y)) p = refl

  -- A call whose request was sent sends one cancellation, under its waiter's number, when it gives up
  -- for its context's sake and the coordinator is not done; in every other end it sends nothing.
  pub await-IsTidy :
      (sent : Bool) (part : Bytes) (w : ℕ) (reply : Pick (Option (CallError X)) X)
      (result : Pick (CallResult V X) X)
      → IsTidy sent w (await sent part w (arrives tt) reply result)
  unfolding await
  await-IsTidy sent part w (arrives o) result = after_reply-IsTidy sent part w o result
  await-IsTidy sent part w (context_done x (some o)) result =
      after_reply-IsTidy sent part w o result
  await-IsTidy sent part w (context_done x none) result =
      left-IsTold sent record { part = []; waiter_id = w; blocked = true }
  await-IsTidy sent part w coordinator_done result = refl

module _ {K V X : Type 0} where
  abbrev pub apply_cancels : List CancelReq → Coordinator K V X → Coordinator K V X
  apply_cancels [] c = c
  apply_cancels (r ∷ rs) c = apply_cancels rs (handle_cancel r c)

  -- A call that gives up before it has read its reply leaves every queue and every batch as they
  -- are, whatever state the coordinator is in by then: if its request has been admitted meanwhile,
  -- its waiter stays active in the queue.
  pub await-left_early :
      (sent : Bool) (part : Bytes) (w : ℕ) (x : X) (result : Pick (CallResult V X) X)
      (c : Coordinator K V X)
      → let r = await sent part w (arrives tt) (context_done x none) result in
        (r.0 ≡ gives_up (external x))
        × ((apply_cancels (r.1) c).partitions ≡ c.partitions)
        × ((apply_cancels (r.1) c).inflight ≡ c.inflight)
        × ((apply_cancels (r.1) c).log ≡ c.log)
  unfolding await handle_cancel
  await-left_early true part w x result c = (refl, refl, refl, refl)
  await-left_early false part w x result c = (refl, refl, refl, refl)
