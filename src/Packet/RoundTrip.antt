-- ===== src/Packet/RoundTrip.antt =====
-- The decoders read back what the encoders write, component by component.
pub mod Primitives
pub mod Loop
pub mod Repeats
pub mod Valid
mod LowProperties
mod MiddleProperties
mod HighProperties
pub mod Properties
pub mod Publish
pub mod Acks
pub mod Subscribe
mod ConnectFlags
pub mod Connect
pub mod Header
pub mod Flags
pub mod Wire
pub mod Size
pub mod Truncated
