-- ===== src/Billing.antt =====
-- The billing module (src/modules/billing).
pub mod Types
pub mod Store
pub mod Wallet
pub mod Pricing
pub mod Payments
pub mod Topup
pub mod Admin
pub mod Json
pub mod Fiscal
pub mod Payme
pub mod Click
pub mod ClickFiscal
pub mod Paynet
pub mod Settlement
pub mod Lifecycle
pub mod Webhooks
pub mod Repeated
pub mod Tiers
pub mod TimedTariffs
pub mod Manual
pub mod Tests
