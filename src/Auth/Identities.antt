-- ===== src/Auth/Identities.antt =====
-- What holds of the ways into an account (auth/services/identity.service.ts).
pub mod Linked
pub mod Unlinked
pub mod Again
pub mod Attached
