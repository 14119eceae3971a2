-- ===== src/Auth/Types.antt =====
-- The data of the auth module: auth/entities, shared/enums/auth.enum.ts and what the services read
-- of users/entities/user.entity.ts. An id is a number, a moment its number of milliseconds.
use qayoda_backend.Base.{ℕ, ◌*◌, Bool, true, false, Option, String}
use qayoda_backend.Billing.Types.{UserRole, UserStatus}

pub data AuthProvider : Type 0 where
  phone google telegram : AuthProvider

abbrev pub provider_eq : AuthProvider → AuthProvider → Bool
provider_eq phone phone = true
provider_eq google google = true
provider_eq telegram telegram = true
provider_eq _ _ = false

pub data Language : Type 0 where
  uz ru : Language

pub record Account : Type 0 where
  pub id : ℕ
  pub name : Option String
  pub surname : Option String
  pub avatar_url : Option String
  pub phone_number : Option String
  pub password_hash : Option String
  pub email : Option String
  pub language : Language
  pub role : UserRole
  pub status : UserStatus
  pub ban_reason : Option String
  pub ban_expires_at : Option ℕ
  pub is_verified_realtor : Bool
  pub tokens_valid_from : Option ℕ
  pub deleted_at : Option ℕ

pub record RefreshToken : Type 0 where
  pub id : ℕ
  pub user_id : ℕ
  pub token_hash : String
  pub family_id : String
  pub expires_at : ℕ
  pub revoked_at : Option ℕ
  pub created_at : ℕ

pub record PhoneOtpCode : Type 0 where
  pub id : ℕ
  pub phone : String
  pub code_hash : String
  pub expires_at : ℕ
  pub consumed_at : Option ℕ
  pub attempts : ℕ
  pub created_at : ℕ

pub record AuthIdentity : Type 0 where
  pub id : ℕ
  pub user_id : ℕ
  pub provider : AuthProvider
  pub provider_id : String
  pub last_used_at : Option ℕ
  pub created_at : ℕ

-- What `JwtAccessGuard` keeps of an account.
pub record AccountState : Type 0 where
  pub status : UserStatus
  pub role : UserRole
  pub deleted_at : Option ℕ
  pub ban_reason : Option String
  pub ban_expires_at : Option ℕ
  pub has_phone : Bool
  pub tokens_valid_from : Option ℕ
  pub cached_at : ℕ

-- `REFRESH_TTL_MS`
abbrev pub refresh_ttl_ms : ℕ
refresh_ttl_ms = 30 * 86400000

-- `OTP_TTL_MS`
abbrev pub otp_ttl_ms : ℕ
otp_ttl_ms = 5 * 60000

-- `RESEND_COOLDOWN_MS`
abbrev pub resend_cooldown_ms : ℕ
resend_cooldown_ms = 60000

-- `MAX_ATTEMPTS`
abbrev pub max_attempts : ℕ
max_attempts = 5

-- `MAX_PER_HOUR`
abbrev pub max_per_hour : ℕ
max_per_hour = 5

-- `JwtAccessGuard.TTL_MS`
abbrev pub guard_ttl_ms : ℕ
guard_ttl_ms = 30000
