-- ===== src/Et.antt =====
-- The et package: sensors, their register blocks, and the inverter.
pub mod Value
pub mod Labels
pub mod Reader
pub mod Registry
pub mod Info
pub mod Inverter
