-- ===== src/PriceBids.antt =====
-- The price-bids module (src/modules/price-bids): the negotiation of a price.
pub mod Types
pub mod Rules
pub mod Place
pub mod Answer
pub mod Sweep
pub mod Negotiation
mod Tests
