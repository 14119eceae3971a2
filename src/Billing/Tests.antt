-- ===== src/Billing/Tests.antt =====
-- The theorems on the billing module at concrete inputs: one order that Click prepares and pays.
mod Data
mod Money
mod Calls
mod Admins
mod Answers
