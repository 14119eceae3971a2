-- ===== src/Auth/Tests.antt =====
-- The theorems on the auth module at concrete inputs: one account, its sessions, codes and
-- identities.
mod Data
mod Sessions
mod Accounts
