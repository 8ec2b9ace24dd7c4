-- ===== src/Packet.antt =====
-- Packet headers and packet numbers (src/packet.rs).
pub mod Number
pub mod Header
pub mod Truncation
pub mod Info
pub mod Layout
pub mod RoundTrip
pub mod Safety
