-- ===== src/Auth/Sessions.antt =====
-- What holds of sessions whatever the requests that run at once (auth/services/token.service.ts).
pub mod Live
pub mod Calm
pub mod Runs
pub mod Claims
pub mod Single
pub mod Kept
pub mod Once
pub mod Rotate
pub mod Exchange
