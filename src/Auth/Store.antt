-- ===== src/Auth/Store.antt =====
-- The state that the auth services read and write: their tables, the clock, the next primary key
-- and the guard's cache; and what they raise.
use qayoda_backend.Base.{ℕ, ◌+◌, Bool, true, false, ◌&&◌, Option, none, some, List, ◌==◌}
use qayoda_backend.Base.Actions.{ok, Action as ActionOf}
use qayoda_backend.Billing.Types.{UserStatus, banned}
use qayoda_backend.Auth.Types.{Account, RefreshToken, PhoneOtpCode, AuthIdentity, AccountState}

pub record AuthDb : Type 0 where
  pub now : ℕ
  pub next_id : ℕ
  pub users : List Account
  pub refreshes : List RefreshToken
  pub otps : List PhoneOtpCode
  pub identities : List AuthIdentity
  pub cache : ℕ → Option AccountState

-- The codes of the exceptions; `unauthorized` is one with none, `no_row` the error of
-- `findOneOrFail`.
pub data AuthFailure : Type 0 where
  unauthorized token_invalid token_reuse_detected token_expired token_revoked : AuthFailure
  account_deleted account_banned account_not_found : AuthFailure
  phone_invalid sms_send_failed : AuthFailure
  otp_invalid otp_locked otp_rate_limited : AuthFailure
  otp_cooldown : ℕ → AuthFailure
  otp_wrong : ℕ → AuthFailure
  invalid_credentials password_not_set current_password_wrong : AuthFailure
  phone_taken provider_already_linked identity_taken last_identity : AuthFailure
  identity_not_linked no_row unique_violation : AuthFailure

abbrev pub Action : Type 0 → Type 0
Action = ActionOf AuthDb AuthFailure

-- The table's next primary key: generated values are new.
abbrev pub fresh_id : Action ℕ
fresh_id db = (ok db.next_id, record db { next_id = db.next_id + 1 })

abbrev pub is_banned : UserStatus → Bool
is_banned banned = true
is_banned _ = false

-- Reads of `User` leave out the rows that were deleted softly.
abbrev pub is_kept : Option ℕ → Bool
is_kept none = true
is_kept (some _) = false

-- `findOne(User, { where: { id } })`
abbrev pub has_id : ℕ → Account → Bool
has_id id u = u.id == id && is_kept u.deleted_at
