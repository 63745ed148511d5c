-- ===== src/Orchestrator.antt =====
-- orchestrator/: the scheduler's records, its gate and its rules.
pub mod Stamps
pub mod Admission
pub mod Approval
pub mod Runtime
pub mod AutoTriage
pub mod Triage
pub mod Filing
pub mod ParentReview
pub mod Actions
pub mod Holds
pub mod Worker
