-- ===== src/Auth/Guard.antt =====
-- JwtAccessGuard (auth/guards/jwt-access.guard.ts): what a verified access token is let do. That
-- its signature verifies is passport's; the guard is given the payload's `sub` and `iat`.
use qayoda_backend.Base.{
  ℕ, ◌-◌, ◌/◌, Bool, true, false, not, ◌&&◌, Option, none, some, String, ◌==◌, ltb, if◌then◌else◌,
  str_eq, is_some, find?,
}
use qayoda_backend.Base.Actions.{◌>>=◌, ◌>>◌, pure, raise, gets, or_raise, raise_if, modify}
use qayoda_backend.Billing.Types.{UserRole}
use qayoda_backend.Auth.Types.{Account, AccountState, guard_ttl_ms}
use qayoda_backend.Auth.Store.{
  Action, is_banned, unauthorized, token_revoked, account_deleted, account_banned,
}

abbrev is_given : Option String → Bool
is_given none = false
is_given (some s) = not (str_eq s "")

abbrev pub state_of : ℕ → Account → AccountState
state_of now u = record {
  status = u.status;
  role = u.role;
  deleted_at = u.deleted_at;
  ban_reason = u.ban_reason;
  ban_expires_at = u.ban_expires_at;
  has_phone = is_given u.phone_number;
  tokens_valid_from = u.tokens_valid_from;
  cached_at = now;
}

-- The state read from the table, and put in the cache.
unfoldable pub load_state : ℕ → Action AccountState
load_state user = do
  u ← or_raise (← gets λ db. find? (λ x. x.id == user) db.users) unauthorized
  now ← gets λ db. db.now
  let state : AccountState = state_of now u
  modify λ db. record db { cache = λ j. if j == user then some state else db.cache j }
  pure state

unfoldable pub get_state : ℕ → Action AccountState
get_state user = do
  now ← gets λ db. db.now
  elim (← gets λ db. db.cache user) [
    | none ↦ load_state user
    | some hit ↦ if ltb (now - hit.cached_at) guard_ttl_ms then pure hit else load_state user
  ]

-- A ban that has run out is no ban.
abbrev pub is_banned_at : ℕ → AccountState → Bool
is_banned_at now state =
    is_banned state.status && elim state.ban_expires_at [ none ↦ true | some until ↦ ltb now until ]

-- The token was issued in a second before that of the account's last revocation.
abbrev pub is_revoked : Option ℕ → Option ℕ → Bool
is_revoked none iat = false
is_revoked (some from) none = false
is_revoked (some from) (some iat) = ltb iat (from / 1000)

-- The role that the request is given.
unfoldable pub admit : Option ℕ → AccountState → Action UserRole
admit iat state = do
  raise_if (is_some state.deleted_at) account_deleted
  raise_if (is_revoked state.tokens_valid_from iat) token_revoked
  now ← gets λ db. db.now
  raise_if (is_banned_at now state) account_banned
  pure state.role

unfoldable pub can_activate : Option ℕ → Option ℕ → Action UserRole
can_activate none iat = raise unauthorized
can_activate (some user) iat = get_state user >>= admit iat

unfoldable pub has_phone : ℕ → Action Bool
has_phone user = do state ← get_state user; pure state.has_phone
