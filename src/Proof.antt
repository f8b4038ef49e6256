-- ===== src/Proof.antt =====
-- internal/proof: the lattice that turns the results of the proof obligations into a decision on a
-- strategy and on a candidate.
pub mod Obligation
pub mod Lattice
mod Examples
