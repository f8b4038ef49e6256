-- ===== src/Runtime.antt =====
-- The runtime/ package: the batching coordinator of one bound operation.
pub mod Policy
pub mod State
pub mod Submit
pub mod Cancel
pub mod Select
pub mod Dispatch
pub mod Schedule
pub mod Complete
pub mod Barriers
pub mod Loop
pub mod Shapes
pub mod Frame
pub mod Bounded
pub mod Drained
pub mod Delivery
pub mod Encoding
mod Examples
pub mod Leaks
pub mod Memo
pub mod Engine
pub mod Scope
pub mod Lifecycle
pub mod Binding
pub mod Caller
