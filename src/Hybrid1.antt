-- ===== src/Hybrid1.antt =====
-- The package hybrid1: datagrams in i2pd's framing.
pub mod Frame
pub mod Session
pub mod Conn
pub mod Opening
pub mod Integration
mod Tests
