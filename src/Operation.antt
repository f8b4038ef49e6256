-- ===== src/Operation.antt =====
-- The operation/ package: identifiers, symbols, semantics, contracts and policies of a declared
-- operation, and their validation.
pub mod Text
pub mod Enum
pub mod Id
pub mod Symbol
pub mod Kind
pub mod Semantics
pub mod Results
pub mod Partitions
pub mod Contracts
pub mod Policies
pub mod Spec
mod Examples
