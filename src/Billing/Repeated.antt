-- ===== src/Billing/Repeated.antt =====
-- What happens when a call of the billing services comes twice, or too late.
pub mod Pushes
pub mod Orders
pub mod FreeActions
pub mod Reversals
pub mod Receipts
