-- ===== src/Billing/Payme.antt =====
-- PaymeProvider (billing/providers/payme/payme.provider.ts): Payme's JSON-RPC methods.
mod Protocol
mod Methods
mod Dispatch
unfoldable pub use Protocol.*
unfoldable pub use Methods.*
unfoldable pub use Dispatch.*
