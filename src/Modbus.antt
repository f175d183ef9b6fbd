-- ===== src/Modbus.antt =====
-- The Modbus layer: et/dtls_transport.go and et/tcp_transport.go.
pub mod Crc
pub mod Message
pub mod Rtu
pub mod Tcp
