-- ===== src/Billing/Paynet.antt =====
-- PaynetProvider (billing/providers/paynet/paynet.provider.ts).
mod Protocol
mod Times
mod Guards
mod Methods
mod Dispatch
unfoldable pub use Protocol.*
unfoldable pub use Times.*
unfoldable pub use Guards.*
unfoldable pub use Methods.*
unfoldable pub use Dispatch.*
