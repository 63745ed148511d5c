-- ===== src/Agent.antt =====
-- agent/: what a session returns to the worker.
pub mod Verdict
pub mod Json
pub mod Checks
pub mod Accounts
