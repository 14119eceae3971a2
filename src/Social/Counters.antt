-- ===== src/Social/Counters.antt =====
-- The counters of followers and the rows that they count.
pub mod Invariant
pub mod Toggled
pub mod Erased
pub mod Steps
pub mod Totals
