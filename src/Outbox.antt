-- ===== src/Outbox.antt =====
-- The relay of the outbox (src/shared/events): events are written with what they tell of, and
-- delivered to their handlers later.
pub mod Relay
pub mod Waiting
pub mod Delivered
mod Tests
