-- ===== src/Et/Registry.antt =====
-- The sensor registries of et/registry.go and the lookup table that `init` makes of them.
pub mod Calculator
pub mod Main
pub mod Blocks
pub mod Lookup
pub mod Names
