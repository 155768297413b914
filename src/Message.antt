-- ===== src/Message.antt =====
-- The headers of the NATS messages that carry MQTT messages: message.go.
pub mod Header
pub mod Decimal
pub mod Nats
pub mod RoundTrip
pub mod Carried
pub mod Return
pub mod Forwarded
pub mod Plain
mod Tests
