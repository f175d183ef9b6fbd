-- ===== src/Transport.antt =====
-- The transports of et/dtls_transport.go and et/tcp_transport.go above the network: connecting,
-- closing, and reading registers with one reconnection.
pub mod Network
pub mod Dtls
pub mod Tcp
pub mod Session
