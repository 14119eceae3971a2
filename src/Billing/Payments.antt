-- ===== src/Billing/Payments.antt =====
-- PaymentsService (billing/payments.service.ts): the provider-neutral state machine of payments.
mod Find
mod Transitions
mod Pushes
mod Housekeeping
unfoldable pub use Find.*
unfoldable pub use Transitions.*
unfoldable pub use Pushes.*
unfoldable pub use Housekeeping.*
