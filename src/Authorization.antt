-- ===== src/Authorization.antt =====
-- src/authorization.ts: what an actor may do by its grants.
pub mod Actions
pub mod Grants
pub mod Evaluate
pub mod Issue
pub mod Decision
pub mod Delegation
pub mod Vocabulary
pub mod Samples
pub mod Witnesses
