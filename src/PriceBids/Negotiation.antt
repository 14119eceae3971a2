-- ===== src/PriceBids/Negotiation.antt =====
-- What holds of negotiations whatever the requests that run at once
-- (price-bids/price-bids.service.ts).
pub mod Invariant
pub mod Placed
pub mod Answered
pub mod Steps
pub mod Respondable
pub mod Answers
pub mod Expiry
