-- ===== src/Delivery.antt =====
-- Messages read from the queue and what a connection delivers of them: cursor.go, offline.go,
-- subscribe.go and expiry.go.
pub mod Queued
pub mod Owed
pub mod Copies
pub mod Whole
pub mod Expiry
mod Tests
