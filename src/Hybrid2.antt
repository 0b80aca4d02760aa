-- ===== src/Hybrid2.antt =====
-- The package hybrid2: datagram2 for identity, datagram3 for bulk.
pub mod Config
pub mod Wire
pub mod Sender
pub mod Receiver
pub mod Session
pub mod Send
pub mod Receive
pub mod Delivery
pub mod Conn
pub mod Stats
pub mod Opening
pub mod Running
pub mod Integration
mod Tests
