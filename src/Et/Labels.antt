-- ===== src/Et/Labels.antt =====
-- The label dictionaries of et/const.go.
pub mod Table
pub mod Modes
pub mod Codes
