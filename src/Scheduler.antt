-- ===== src/Scheduler.antt =====
-- src/scheduler-port.ts: the port to an external scheduler.
pub mod Requests
pub mod Port
pub mod Results
pub mod Again
pub mod Meaning
pub mod Receipts
pub mod Invocation
pub mod Samples
pub mod Witnesses
