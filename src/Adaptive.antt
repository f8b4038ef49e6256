-- ===== src/Adaptive.antt =====
-- internal/adaptive: hard bounds, recursive traversals, and the rollback of changes.
pub mod Bounds
pub mod Recursive
pub mod Rollback
mod Examples
