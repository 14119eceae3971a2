-- ===== src/Billing/Manual.antt =====
-- What holds of an admin's changes (billing/billing-admin.service.ts).
pub mod Keyed
pub mod Shapes
