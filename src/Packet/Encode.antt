-- ===== src/Packet/Encode.antt =====
-- The `encode` methods of the packets, and `Encode`, `Write` and `EncodedLen` of packet/packet.go.
mod Bodies
mod Connect
unfoldable pub use Bodies.*
unfoldable pub use Connect.*
pub mod Wire
