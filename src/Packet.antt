-- ===== src/Packet.antt =====
-- The package packet: one Control Packet to bytes and back.
pub mod Types
pub mod Result
pub mod Utf8
pub mod Reader
pub mod Writer
pub mod Properties
pub mod Model
pub mod Decode
pub mod Encode
pub mod RoundTrip
pub mod Progress
mod Tests
