-- ===== src/Auth/Otp.antt =====
-- PhoneAuthService (auth/services/phone-auth.service.ts): one-time codes by SMS, and passwords.
-- bcrypt is two parameters, `encrypt` and `compare`; whether an SMS is accepted is a parameter.
use qayoda_backend.Base.{
  ℕ, ◌+◌, ◌-◌, ◌/◌, Bool, false, not, ◌&&◌, Option, none, some, String, List, [], ◌∷◌, ◌==◌, leb,
  ltb, if◌then◌else◌, str_eq, is_some, is_text, or_default, find?, any, select, update_where,
  count_if,
}
use qayoda_backend.Base.Actions.{◌>>=◌, ◌>>◌, pure, raise, gets, or_raise, raise_if, modify}
use qayoda_backend.Auth.Types.{
  Account, AuthIdentity, phone, Language, uz, PhoneOtpCode, otp_ttl_ms, resend_cooldown_ms,
  max_attempts, max_per_hour,
}
use qayoda_backend.Auth.Store.{
  AuthDb, AuthFailure, Action, fresh_id, is_kept, has_id, is_banned, account_deleted,
  account_banned, account_not_found, otp_invalid, otp_locked, otp_rate_limited, otp_cooldown,
  otp_wrong, invalid_credentials, password_not_set, current_password_wrong, phone_taken,
  provider_already_linked, phone_invalid, sms_send_failed,
}
use qayoda_backend.Auth.Tokens.{Pair, issue_pair, revoke_all_for, invalidate}
use qayoda_backend.Auth.Identity.{
  IdentityInput, resolve, link, is_identity, is_provider_of, plus, given,
}
use qayoda_backend.Auth.Phone.{normalize_phone}

-- REVIEW_PHONE, normalised, and REVIEW_OTP_CODE.
pub record Review : Type 0 where
  pub phone : Option String
  pub code : Option String

pub data OtpPurpose : Type 0 where
  login reset : OtpPurpose

abbrev pub is_review_phone : Review → String → Bool
is_review_phone review p = is_text p review.phone

abbrev pub is_outstanding : String → PhoneOtpCode → Bool
is_outstanding p o = str_eq p o.phone && not (is_some o.consumed_at)

-- `findOne` in the order of `createdAt DESC`.
unfoldable pub newest : (PhoneOtpCode → Bool) → List PhoneOtpCode → Option PhoneOtpCode
newest t [] = none
newest t (x ∷ xs) =
    let rest = newest t xs in
    if t x
    then elim rest [
      | none ↦ some x
      | some y ↦ if leb y.created_at x.created_at then some x else some y
    ]
    else rest

-- The refusal while the last code is younger than a minute: the seconds to wait, rounded up.
unfoldable pub cooldown : ℕ → Option PhoneOtpCode → Option AuthFailure
cooldown now none = none
cooldown now (some recent) =
    let elapsed = now - recent.created_at in
    if ltb elapsed resend_cooldown_ms
    then some (otp_cooldown ((resend_cooldown_ms - elapsed + 999) / 1000))
    else none

abbrev pub is_of_hour : ℕ → String → PhoneOtpCode → Bool
is_of_hour now p o = str_eq p o.phone && ltb (now - 3600000) o.created_at

abbrev pub consumed : ℕ → PhoneOtpCode → PhoneOtpCode
consumed now o = record o { consumed_at = some now }

abbrev pub code_row : ℕ → ℕ → String → String → PhoneOtpCode
code_row now id p code_hash = record {
  id = id;
  phone = p;
  code_hash = code_hash;
  expires_at = now + otp_ttl_ms;
  consumed_at = none;
  attempts = 0;
  created_at = now;
}

-- `parameters.lang` when it is left out is `'uz'`.
abbrev pub sms_language : Option Language → Language
sms_language lang = or_default lang uz

abbrev pub raise_some : Option AuthFailure → Action (Unit {0})
raise_some none = pure tt
raise_some (some e) = raise e

-- The tests of the budget of a number.
unfoldable pub assert_budget : String → Action (Unit {0})
assert_budget p = do
  now ← gets λ db. db.now
  recent ← gets λ db. newest (λ o. str_eq p o.phone) db.otps
  last_hour ← gets λ db. count_if (is_of_hour now p) db.otps
  raise_some (cooldown now recent)
  raise_if (leb max_per_hour last_hour) otp_rate_limited

-- What is outstanding is retired, and the new code's row is written.
unfoldable pub write_code : String → String → Action (Unit {0})
write_code p code_hash = do
  modify λ db. record db { otps = update_where (is_outstanding p) (consumed db.now) db.otps }
  id ← fresh_id
  modify λ db. record db { otps = code_row db.now id p code_hash ∷ db.otps }

-- The expiry in seconds.
abbrev pub Sent : Type 0
Sent = ℕ

module _ (review : Review) (encrypt : String → String)
    (deliver : String → String → Language → OtpPurpose → Bool) where
  -- `requestOtp` of a normalised number.
  unfoldable pub request_code : String → String → Option Language → OtpPurpose → Action Sent
  request_code code p lang purpose =
      if is_review_phone review p then pure (otp_ttl_ms / 1000) else do
        assert_budget p
        write_code p (encrypt code)
        raise_if (not (deliver p code (sms_language lang) purpose)) sms_send_failed
        pure (otp_ttl_ms / 1000)

  -- The code is `String(randomInt(100_000, 1_000_000))`.
  unfoldable pub request_otp : String → String → Option Language → OtpPurpose → Action Sent
  request_otp code raw_phone lang purpose = do
    p ← or_raise (normalize_phone raw_phone) phone_invalid
    request_code code p lang purpose

  unfoldable pub link_phone_request : String → ℕ → String → Option Language → Action Sent
  link_phone_request code user raw_phone lang = do
    p ← or_raise (normalize_phone raw_phone) phone_invalid
    owned ← gets λ db. any (is_identity phone p) db.identities
    own ← gets λ db. any (is_provider_of user phone) db.identities
    raise_if own provider_already_linked
    raise_if owned phone_taken
    request_otp code raw_phone lang login

abbrev pub one_attempt : PhoneOtpCode → PhoneOtpCode
one_attempt o = record o { attempts = o.attempts + 1 }

-- The code is spent: one of two requests that hold it gets the row.
unfoldable pub claim_code : PhoneOtpCode → Action (Unit {0})
claim_code row = do
  affected ← gets λ db. count_if (λ o. o.id == row.id && not (is_some o.consumed_at)) db.otps
  modify λ db. record db {
    otps =
        update_where (λ o. o.id == row.id && not (is_some o.consumed_at)) (consumed db.now) db.otps;
  }
  raise_if (not (affected == 1)) otp_invalid

unfoldable pub wrong_code : PhoneOtpCode → Action (Unit {0})
wrong_code row = do
  modify λ db. record db { otps = update_where (λ o. o.id == row.id) one_attempt db.otps }
  raise (otp_wrong (max_attempts - (row.attempts + 1)))

module _ (review : Review) (compare : String → String → Bool) where
  -- The row of the number's last code, if it may be tried.
  unfoldable pub outstanding_code : String → Action PhoneOtpCode
  outstanding_code p = do
    row ← or_raise (← gets λ db. newest (is_outstanding p) db.otps) otp_invalid
    now ← gets λ db. db.now
    raise_if (ltb row.expires_at now) otp_invalid
    raise_if (leb max_attempts row.attempts) otp_locked
    pure row

  unfoldable pub try_code : String → PhoneOtpCode → Action (Unit {0})
  try_code code row = if compare code row.code_hash then claim_code row else wrong_code row

  unfoldable pub consume_code : String → String → Action (Unit {0})
  consume_code p code =
      if is_review_phone review p && is_text code review.code
      then pure tt
      else outstanding_code p >>= try_code code

abbrev pub phone_input : String → Option String → Option Language → IdentityInput
phone_input p name lang = record {
  provider = phone;
  provider_id = p;
  verified_email = none;
  verified_phone = some p;
  name = name;
  surname = none;
  avatar_url = none;
  language = lang;
}

-- The account that holds the number.
abbrev pub holds : String → Account → Bool
holds p u = is_text (plus p) u.phone_number && is_kept u.deleted_at

unfoldable pub check_phone : String → Action Bool
check_phone raw_phone = do
  p ← or_raise (normalize_phone raw_phone) phone_invalid
  user ← gets λ db. find? (holds p) db.users
  pure (elim user [ none ↦ false | some u ↦ is_some (given u.password_hash) ])

abbrev pub with_password : String → Account → Account
with_password h u = record u { password_hash = some h }

-- `purgeExpired` of the codes: a day after they expired.
unfoldable pub purge_codes : AuthDb → AuthDb
purge_codes db = record db {
  otps = select (λ o. not (ltb o.expires_at (db.now - 86400000))) db.otps;
}

-- `hash` is sha256 of the refresh tokens, `raw` and `random` their random texts.
module _ (review : Review) (encrypt : String → String) (compare : String → String → Bool)
    (hash : String → String) (raw random : String) where
  -- The pair and whether the account is new.
  unfoldable pub verify_otp :
      (AuthDb → AuthDb) → String → String → Option String → Option Language → Action (Pair × Bool)
  verify_otp between raw_phone code name lang = do
    p ← or_raise (normalize_phone raw_phone) phone_invalid
    consume_code review compare p code
    found ← resolve between (phone_input p name (some (sms_language lang)))
    raise_if (is_banned found.0.status) account_banned
    pair ← issue_pair hash raw random found.0 none
    pure (pair, found.1)

  unfoldable pub link_phone : ℕ → String → String → Action AuthIdentity
  link_phone user raw_phone code = do
    p ← or_raise (normalize_phone raw_phone) phone_invalid
    consume_code review compare p code
    identity ← link user (phone_input p none none)
    modify (invalidate user)
    pure identity

  unfoldable pub login_with_password : String → String → Action Pair
  login_with_password raw_phone password = do
    p ← or_raise (normalize_phone raw_phone) phone_invalid
    user ← or_raise (← gets λ db. find? (holds p) db.users) invalid_credentials
    password_hash ← or_raise (given user.password_hash) password_not_set
    raise_if (not (compare password password_hash)) invalid_credentials
    raise_if (is_banned user.status) account_banned
    issue_pair hash raw random user none

  abbrev pub is_current : Option String → String → Bool
  is_current current h = elim (given current) [ none ↦ false | some c ↦ compare c h ]

  unfoldable pub set_password : ℕ → String → Option String → Action (Unit {0})
  set_password id password current = do
    user ← or_raise (← gets λ db. find? (has_id id) db.users) account_deleted
    raise_if
        (elim (given user.password_hash) [ none ↦ false | some h ↦ not (is_current current h) ])
        current_password_wrong
    modify λ db. record db {
      users = update_where (λ u. u.id == id) (with_password (encrypt password)) db.users;
    }

  unfoldable pub reset_password : String → String → String → Action Pair
  reset_password raw_phone code password = do
    p ← or_raise (normalize_phone raw_phone) phone_invalid
    consume_code review compare p code
    user ← or_raise (← gets λ db. find? (holds p) db.users) account_not_found
    raise_if (is_banned user.status) account_banned
    modify λ db. record db {
      users = update_where (λ u. u.id == user.id) (with_password (encrypt password)) db.users;
    }
    modify (revoke_all_for user.id)
    issue_pair hash raw random (with_password (encrypt password) user) none
