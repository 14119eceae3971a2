-- ===== src/Social/Toggle.antt =====
-- A call of setFollow on a given state: its tests, its write, and calls in a row.
pub mod Gate
pub mod Rows
pub mod Calls
