-- ===== src/Domain.antt =====
-- src/domain.ts: the pure domain core.
pub mod States
pub mod Errors
pub mod Records
pub mod Value
pub mod Encode
pub mod Parse
pub mod Graph
pub mod Snapshot
pub mod Mutation
pub mod Projects
pub mod Tasks
pub mod Links
pub mod Eligibility
pub mod Continuation
pub mod Transition
pub mod Samples
mod Witnesses
mod ClaimWitnesses
mod CreateWitnesses
mod CancelWitnesses
mod CancelTransitions
mod InterruptionWitnesses
mod ContinuationWitnesses
pub mod Commands
