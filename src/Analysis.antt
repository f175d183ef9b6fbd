-- ===== src/Analysis.antt =====
-- The voltage analysis of pkg/analysis.
pub mod Voltage
