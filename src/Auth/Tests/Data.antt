-- ===== src/Auth/Tests/Data.antt =====
-- An account with a phone, and the tables before anything is issued.
use qayoda_backend.Base.{false, none, some, String, [], ◌∷◌}
use qayoda_backend.Billing.Types.{UserRole, UserStatus}
use qayoda_backend.Auth.Types.{Account, uz}
use qayoda_backend.Auth.Store.{AuthDb}
use qayoda_backend.Auth.Otp.{Review}

abbrev pub aziza : Account
aziza = record {
  id = 7;
  name = some "Aziza";
  surname = none;
  avatar_url = none;
  phone_number = some "+998901234567";
  password_hash = some "old";
  email = none;
  language = uz;
  role = UserRole.user;
  status = UserStatus.active;
  ban_reason = none;
  ban_expires_at = none;
  is_verified_realtor = false;
  tokens_valid_from = none;
  deleted_at = none;
}

abbrev pub start : AuthDb
start = record {
  now = 5000000;
  next_id = 0;
  users = aziza ∷ [];
  refreshes = [];
  otps = [];
  identities = [];
  cache = λ _. none;
}

-- No review number is configured.
abbrev pub no_review : Review
no_review = record { phone = none; code = none }

-- A digest that is its text.
abbrev pub plain : String → String
plain s = s
