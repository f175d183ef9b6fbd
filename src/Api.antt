-- ===== src/Api.antt =====
-- pkg/api/handler.go, as far as it is modelled.
pub mod Response
pub mod Downsample
pub mod Sensors
pub mod Health
pub mod GridVoltage
pub mod GetAggregate
