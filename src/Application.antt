-- ===== src/Application.antt =====
-- src/application-domain.ts: the step from the application's commands to the operations of the domain.
pub mod Model
pub mod Commands
pub mod Grants
pub mod Paging
pub mod Accepted
pub mod Dependents
pub mod Samples
pub mod Witnesses
