-- ===== src/Alias.antt =====
-- outalias.go: the table of Topic Aliases that the broker sets on one connection.
pub mod Table
mod Entries
pub mod Agreement
mod Tests
