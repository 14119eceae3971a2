-- ===== src/Billing/Webhooks.antt =====
-- What the webhooks of the providers (billing/providers) may do.
pub mod Runs
pub mod PaymeEffects
pub mod PaymeRuns
pub mod PaymeHandled
pub mod ClickChecked
pub mod ClickRuns
pub mod PaynetRuns
pub mod PaynetHandled
pub mod Guarded
pub mod ClickConfirmed
pub mod ReceiptRuns
pub mod Composed
pub mod Answers
pub mod PaynetAnswers
