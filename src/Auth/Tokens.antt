-- ===== src/Auth/Tokens.antt =====
-- TokenService (auth/services/token.service.ts): the sessions of an account. `randomBytes` gives
-- the texts `raw` and `random`; sha256 is the parameter `hash`; an access token is what its
-- payload says.
use Prim.Native.Char.{code}
use qayoda_backend.Base.{
  ℕ, ◌+◌, ◌-◌, ◌/◌, Bool, not, ◌&&◌, ◌||◌, Option, none, some, String, ◌∷◌, ◌==◌, ltb,
  if◌then◌else◌, str_eq, is_some, or_default, find?, select, update_where, count_if,
}
use qayoda_backend.Base.Actions.{◌>>=◌, ◌>>◌, pure, raise, gets, or_raise, raise_if, modify}
use qayoda_backend.Billing.Types.{UserRole}
use qayoda_backend.Auth.Types.{Account, Language, RefreshToken, refresh_ttl_ms}
use qayoda_backend.Auth.Store.{
  AuthDb, Action, fresh_id, is_banned, has_id, unauthorized, token_invalid, token_reuse_detected,
  token_expired, account_deleted, account_banned,
}

pub record AccessToken : Type 0 where
  pub sub : ℕ
  pub role : UserRole
  pub iat : ℕ
  pub exp : ℕ

pub record UserView : Type 0 where
  pub id : ℕ
  pub name : Option String
  pub surname : Option String
  pub phone_number : Option String
  pub email : Option String
  pub avatar_url : Option String
  pub language : Language
  pub role : UserRole
  pub is_verified_realtor : Bool
  pub has_password : Bool

pub record Pair : Type 0 where
  pub access_token : AccessToken
  pub refresh_token : String
  pub user : UserView

-- `${a}.${b}`
unfoldable pub dotted : String → String → String
dotted String.[] b = String.◌∷◌ "." b
dotted (String.◌∷◌ c a) b = String.◌∷◌ c (dotted a b)

-- The first part of `split('.')`.
unfoldable pub first_part : String → String
first_part String.[] = ""
first_part (String.◌∷◌ c s) =
    let rest = first_part s in if code c == b'.' then "" else String.◌∷◌ c rest

-- The second part of `split('.')`, if there is one.
unfoldable pub second_part : String → Option String
unfolding first_part
second_part String.[] = none
second_part (String.◌∷◌ c s) =
    let rest = second_part s in if code c == b'.' then some (first_part s) else rest

abbrev pub view_of : Account → UserView
view_of u = record {
  id = u.id;
  name = u.name;
  surname = u.surname;
  phone_number = u.phone_number;
  email = u.email;
  avatar_url = u.avatar_url;
  language = u.language;
  role = u.role;
  is_verified_realtor = u.is_verified_realtor;
  has_password = is_some u.password_hash;
}

abbrev pub issued_row : ℕ → ℕ → ℕ → String → String → RefreshToken
issued_row now id user family token_hash = record {
  id = id;
  user_id = user;
  token_hash = token_hash;
  family_id = family;
  expires_at = now + refresh_ttl_ms;
  revoked_at = none;
  created_at = now;
}

-- `ACCESS_TTL` is fifteen minutes; `iat` and `exp` are seconds.
abbrev pub access_of : ℕ → Account → AccessToken
access_of now user = record {
  sub = user.id;
  role = user.role;
  iat = now / 1000;
  exp = now / 1000 + 900;
}

unfoldable pub insert_token : RefreshToken → Action (Unit {0})
insert_token row = modify λ db. record db { refreshes = row ∷ db.refreshes }

abbrev pub is_live : RefreshToken → Bool
is_live t = not (is_some t.revoked_at)

abbrev pub revoked : ℕ → RefreshToken → RefreshToken
revoked now t = record t { revoked_at = some now }

-- `update({ …, revokedAt: IsNull() }, { revokedAt: new Date() })`
abbrev pub revoke_where : (RefreshToken → Bool) → AuthDb → AuthDb
revoke_where t db = record db {
  refreshes = update_where (λ r. t r && is_live r) (revoked db.now) db.refreshes;
}

unfoldable pub revoke_family : String → AuthDb → AuthDb
revoke_family family = revoke_where λ t. str_eq family t.family_id

unfoldable pub revoke_session : ℕ → String → AuthDb → AuthDb
revoke_session user family = revoke_where λ t. t.user_id == user && str_eq family t.family_id

unfoldable pub revoke_other_sessions : ℕ → String → AuthDb → AuthDb
revoke_other_sessions user keep =
    revoke_where λ t. t.user_id == user && not (str_eq keep t.family_id)

-- `JwtAccessGuard.invalidate`
abbrev pub invalidate : ℕ → AuthDb → AuthDb
invalidate user db = record db { cache = λ j. if j == user then none else db.cache j }

unfoldable pub revoke_all_for : ℕ → AuthDb → AuthDb
revoke_all_for user db =
    let db' = revoke_where (λ t. t.user_id == user) db in
    invalidate user (record db' {
      users =
          update_where (λ u. u.id == user) (λ u. record u { tokens_valid_from = some db.now })
            db'.users;
    })

-- The family that a presented token names.
abbrev pub family_of : Option String → Option String
family_of none = none
family_of (some presented) = some (first_part presented)

unfoldable pub purge_expired : AuthDb → AuthDb
purge_expired db = record db {
  refreshes = select (λ t. not (ltb t.expires_at (db.now - refresh_ttl_ms))) db.refreshes;
}

-- A replay: the whole family is revoked.
unfoldable pub burn : String → Action (Unit {0})
burn family = do modify (revoke_family family); raise token_reuse_detected

-- `update({ id: row.id, revokedAt: IsNull() }, …)`, and what it does if it hits no row.
unfoldable pub claim_token : RefreshToken → Action (Unit {0})
claim_token row = do
  affected ← gets λ db. count_if (λ t. t.id == row.id && is_live t) db.refreshes
  modify (revoke_where λ t. t.id == row.id)
  if affected == 1 then pure tt else burn row.family_id

-- The tests of the owner after the claim; the user was read with the row.
unfoldable pub check_owner : RefreshToken → Option Account → Action Account
check_owner row none = raise account_deleted
check_owner row (some user) =
    if is_banned user.status
    then (do modify (revoke_all_for row.user_id); raise account_banned)
    else pure user

-- The claim and the tests of the owner.
unfoldable pub claim : RefreshToken → Option Account → Action Account
claim row user = claim_token row >> check_owner row user

module _ (hash : String → String) where
  unfoldable pub issue_pair : String → String → Account → Option String → Action Pair
  issue_pair raw random user family_id = do
    id ← fresh_id
    now ← gets λ db. db.now
    let family = or_default family_id random
    insert_token (issued_row now id user.id family (hash raw))
    pure record {
      access_token = access_of now user;
      refresh_token = dotted family raw;
      user = view_of user;
    }

  abbrev pub is_presented : String → String → RefreshToken → Bool
  is_presented family raw t = str_eq family t.family_id && str_eq (hash raw) t.token_hash

  -- `rotate` up to the claim, of a token's two parts: the row and its user.
  unfoldable pub rotate_read : String → String → Action (RefreshToken × Option Account)
  rotate_read family raw = do
    row ← or_raise (← gets λ db. find? (is_presented family raw) db.refreshes) token_invalid
    if is_some row.revoked_at then burn family else pure tt
    now ← gets λ db. db.now
    raise_if (ltb row.expires_at now) token_expired
    user ← gets λ db. find? (has_id row.user_id) db.users
    pure (row, user)

  -- `rotate` of a token's two parts; an empty part is refused.
  unfoldable pub rotate_parts : String → String → String → String → Action Pair
  rotate_parts new random family raw = do
    raise_if (str_eq family "" || str_eq raw "") unauthorized
    found ← rotate_read family raw
    user ← claim found.0 found.1
    issue_pair new random user (some family)

  unfoldable pub rotate : String → String → String → Action Pair
  rotate new random presented = elim (second_part presented) [
    | none ↦ raise unauthorized
    | some raw ↦ rotate_parts new random (first_part presented) raw
  ]
