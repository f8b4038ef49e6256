-- ===== src/Lib.antt =====
-- BatchWeaver: the batching runtime and the decisions around it.
--
-- A library declares operations (operation/): what they do, how they may be batched, and within what
-- limits. An engine (runtime/engine.go) binds valid declarations (`Bind` of runtime/binding.go).
-- Callers open a scope (runtime/scope.go) and submit keys to a bound operation (`Do`). Its
-- coordinator, a single goroutine (runtime/coordinator.go, coordinator_handlers.go,
-- coordinator_dispatch.go), joins equal keys, queues items by partition, selects batches within hard
-- limits, starts provider calls and hands the outcomes of each response (types.go, request.go,
-- response.go) to the waiters. A scope remembers results (runtime/memo.go). An adaptive controller
-- offers settings within hard bounds, and recursive loads go level by level (internal/adaptive), and
-- a prover decides which calls may be batched at all (internal/proof).
--
-- Files:
-- - Base: Boolean tests on the native numbers, chains of tests that return early, strings as bytes,
--   lists, Go's signed integers.
-- - Message (types.go), Message/Request (request.go), Message/Response (response.go): the values that
--   callers, the runtime and providers share, with their validation. Ids holds the sets of identifiers;
--   Response/Laws what an accepted response is.
-- - Operation: one module per file of operation/. Text holds what Go's `strings` does there; Enum is
--   enum.go, Id id.go, Symbol symbol.go, Kind and Semantics kind.go and semantics.go, Results result.go,
--   Partitions partition.go, Contracts contract.go, Policies scheduler.go, deduplication.go, retry.go
--   and fallback.go, Spec spec.go and validation.go. The modules named Laws hold what is proved.
-- - Runtime/Engine is engine.go with engine_options.go, Runtime/Scope scope.go, Runtime/Binding `Bind`,
--   and Runtime/Caller `Do` of binding.go. Runtime/Lifecycle is the relation of the states that an
--   engine and its scopes can reach.
-- - Runtime/Policy (policy.go, adaptive.go, the configuration of binding.go), Runtime/State (the state
--   of coordinator.go), Submit and Cancel (coordinator_handlers.go), Select, Dispatch, Schedule,
--   Complete and Barriers (coordinator_dispatch.go), Loop (`run`): one function per handler, on the
--   coordinator's state as a value. What the coordinator sends, cancels, starts and counts is appended
--   to a log. Runtime/Memo is memo.go with `finish` of binding.go; Runtime/Encoding is partition.go.
-- - Runtime/Bounded (with Shapes and Frame), Drained, Delivery, Leaks, Submit/Limits, Submit/Replies,
--   Select/Bounds, Policy/Bounds, Memo/Laws, Memo/Recall, Engine/Closing, Lifecycle/Frozen, Binding/Laws
--   (with Bounds and Causes), Caller/Laws and Caller/Waiting hold what is proved of them; the modules
--   named Examples hold concrete runs.
-- - Proof/Obligation and Proof/Lattice: obligation.go and lattice.go of internal/proof.
-- - Adaptive/Bounds: bounds.go of internal/adaptive. Adaptive/Recursive: `Traverse` of its recursive.go,
--   with Ends, Nodes, Keys and Reports on what a traversal reports.
--   Adaptive/Rollback: its rollback.go, with Slots, the watch on a single operation.
-- - Distance: internal/textdistance/distance.go, with Laws, Least and Closest on what it computes.
--
-- An item has one owner, the pending list of its partition or its batch in flight, where Go shares
-- it behind a pointer; the index by hash is computed. Events come in any order and at any times: the
-- states that a coordinator can reach are an inductive relation (Runtime/Bounded/Reach), and so are
-- those of an engine with its scopes, where the steps of `NewScope` and of closing have others
-- between them. What a `select` picks and what a callback does come from outside, as arguments.
-- Numbers are natural; uint64 counters and the int64 sums of weights and bytes wrap, and other
-- signed values are integers. An enumeration of Go is a data type with one more constructor for the
-- numbers past its names. The loop of `schedule` runs on fuel, the number of pending items, which is
-- enough since every round leaves fewer of them; `Traverse` has two more rounds than its greatest
-- depth, after which the limit on the depth has ended it. Hashes and the varint code of Go's
-- standard library, its floats where the guardrails use them, and key strategies, are parameters.
--
-- Not modelled: a tuner that changes the settings within a round of the event loop, hook events and
-- their names, clocks, the goroutine and the context of a provider call (its completion is an
-- event), the canonical text of a specification and its catalog, the files of internal/adaptive and
-- internal/proof that are not named above, and the packages for analysis, transformation, adapters,
-- configuration, diagnostics, the command line, editors and releases.
mod Base
pub mod Message
pub mod Operation
pub mod Adaptive
pub mod Distance
pub mod Proof
pub mod Runtime
