-- ===== src/Harness.antt =====
-- src/harness: the cycle's progress, its contract and its trigger.
pub mod Progress
pub mod Contract
pub mod Groups
pub mod Trigger
