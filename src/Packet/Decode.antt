-- ===== src/Packet/Decode.antt =====
-- The decoders of the packets' bodies, one for each file of the package packet, and `decode`.
mod Publish
mod Acks
mod Subscribe
mod Connect
unfoldable pub use Publish.*
unfoldable pub use Acks.*
unfoldable pub use Subscribe.*
unfoldable pub use Connect.*
pub mod Wire
