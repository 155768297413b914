-- ===== src/Packet/Progress.antt =====
-- Every reader of the package ends, and takes from its stream.
pub mod Rules
pub mod Properties
pub mod Bodies
pub mod Wire
