-- ===== src/Db.antt =====
-- pkg/db/store.go: the tables and the statements on them.
pub mod Tables
pub mod Buckets
pub mod Keep
pub mod Identity
pub mod Samples
pub mod Voltage
pub mod Prune
pub mod Aggregate
pub mod Query
