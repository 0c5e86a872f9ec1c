-- ===== src/Agents.antt =====
-- agents/: the agents that the workflow calls, and the evidence that they make.
pub mod Evidence
pub mod Reconciliation
pub mod Discrepancies
pub mod Floor
pub mod Reporting
pub mod Reports
pub mod Governance
pub mod Auditor
pub mod Investigator
pub mod Lookback
pub mod Identity
pub mod Retrieval
