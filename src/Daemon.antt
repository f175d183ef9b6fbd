-- ===== src/Daemon.antt =====
-- pkg/daemon/daemon.go: the connection state machine and the poll loop.
pub mod World
pub mod Connect
pub mod Poll
pub mod Aggregate
pub mod Run
