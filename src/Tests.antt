-- ===== src/Tests.antt =====
-- Sample data, and each theorem at a concrete input.
pub mod Samples
mod Admission
mod Approval
mod Runtime
mod GitHub
pub mod Filing
mod ParentReview
mod Parse
pub mod Board
mod Actions
mod Worker
mod Holds
mod Accounts
