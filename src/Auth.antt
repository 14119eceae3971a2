-- ===== src/Auth.antt =====
-- The auth module (src/modules/auth): accounts, sessions, one-time codes and identities.
pub mod Types
pub mod Store
pub mod Tokens
pub mod SessionList
pub mod Guard
pub mod Phone
pub mod Identity
pub mod Otp
pub mod Sessions
pub mod LogOut
pub mod Codes
pub mod Passwords
pub mod Identities
mod Tests
