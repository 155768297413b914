-- ===== src/Session.antt =====
-- The exchanges of a session: session.go's packet identifiers and acknowledgements, and the handlers of
-- publish.go that use them.
pub mod State
pub mod Identifiers
pub mod Inflight
pub mod Received
pub mod Handlers
pub mod Attach
pub mod Fresh
pub mod Order
pub mod Once
pub mod Quota
pub mod Acks
pub mod Slots
mod Tests
