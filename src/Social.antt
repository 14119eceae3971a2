-- ===== src/Social.antt =====
-- The follows and blocks modules (src/modules/follows, src/modules/blocks), and what the deletion of
-- an account (src/modules/users) does to them.
pub mod Types
pub mod Blocks
pub mod Follows
pub mod Erase
pub mod Lists
pub mod BlockedAmong
pub mod Toggle
pub mod Counters
mod Tests
