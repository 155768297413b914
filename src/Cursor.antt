-- ===== src/Cursor.antt =====
-- The replay cursor of a session: cursor.go, and what session.go does with it.
pub mod State
pub mod Holes
pub mod Deliver
pub mod Scan
pub mod Restart
pub mod Replay
pub mod Accounts
pub mod Run
pub mod Fit
pub mod Ask
mod Tests
