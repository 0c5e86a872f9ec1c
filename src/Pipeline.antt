-- ===== src/Pipeline.antt =====
-- data_pipeline/: the canonical records and the construction of a case.
pub mod Models
pub mod Store
pub mod Cutoff
pub mod Known
pub mod Values
pub mod Ingestion
pub mod Accounting
