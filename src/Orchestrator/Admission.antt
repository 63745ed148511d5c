-- ===== src/Orchestrator/Admission.antt =====
-- orchestrator/admission.py: the ledger of what each issue has cost, and the gate to every claim.
pub mod Ledger
pub mod Gate
