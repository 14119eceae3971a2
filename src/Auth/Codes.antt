-- ===== src/Auth/Codes.antt =====
-- What holds of the one-time codes (auth/services/phone-auth.service.ts).
pub mod Metered
pub mod Requested
pub mod Tried
pub mod Budget
