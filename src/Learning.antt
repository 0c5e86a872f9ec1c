-- ===== src/Learning.antt =====
-- anomaly_detection/: the split of the labelled history into training, validation and test.
pub mod Splits
pub mod Leakage
