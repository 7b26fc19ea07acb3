-- ===== src/Protocol.antt =====
-- The shared protocol crate, protocol/src: one module for each of its parts.
pub mod Errors
pub mod Validators
pub mod Scope
pub mod Event
pub mod Frame
pub mod Ledger
pub mod Environment
pub mod Causal
pub mod Artifact
pub mod Batch
pub mod Tests
