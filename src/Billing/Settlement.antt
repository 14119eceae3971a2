-- ===== src/Billing/Settlement.antt =====
-- The money of every payment: what the transitions of PaymentsService do to the wallets.
pub mod Invariant
pub mod Outcomes
pub mod Written
pub mod Effects
pub mod Rows
pub mod Snapshot
pub mod Moved
pub mod Paid
pub mod Reversed
pub mod Relabelled
pub mod Inserted
pub mod Charged
pub mod Adjusted
