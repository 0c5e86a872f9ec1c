-- ===== src/Reconciliation.antt =====
-- reconciliation/: a transaction against its ledger records.
pub mod Config
pub mod Matcher
pub mod Checks
pub mod Rules
pub mod Detector
pub mod Service
pub mod Matching
pub mod Agreement
pub mod Verdict
