-- ===== src/Policy.antt =====
-- src/project-policy-port.ts: the port to the policy of a Project.
pub mod Values
pub mod Subjects
pub mod Facts
pub mod Requests
pub mod Results
pub mod Gates
pub mod Bounds
pub mod Receipts
pub mod Local
pub mod Samples
pub mod Witnesses
