-- ===== src/GitHub.antt =====
-- github/: the records of GitHub's objects and the label state machine.
pub mod Models
pub mod State
pub mod Adapter
