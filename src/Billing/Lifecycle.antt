-- ===== src/Billing/Lifecycle.antt =====
-- The life of a payment, over every interleaving of the methods of the billing services.
pub mod Kept
pub mod Methods
pub mod Steps
pub mod Reachable
pub mod Once
