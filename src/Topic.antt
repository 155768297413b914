-- ===== src/Topic.antt =====
-- The package topic: Topic Names and Topic Filters, and the mapping to NATS subjects.
pub mod Strings
pub mod Validate
pub mod Match
pub mod Subject
pub mod RoundTrip
pub mod Literal
pub mod Tokens
mod Parts
pub mod Levelwise
pub mod Delivery
pub mod Prefix
pub mod Grammar
mod Tests
