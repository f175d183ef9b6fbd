-- ===== src/Discovery.antt =====
-- discovery/discover.go: the probe of the dongle's UDP port, its answer, and the transport chosen.
pub mod Probe
pub mod Model
pub mod Discover
