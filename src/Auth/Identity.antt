-- ===== src/Auth/Identity.antt =====
-- IdentityService (auth/services/identity.service.ts): the ways into an account.
use qayoda_backend.Base.{
  is_some, ℕ, Bool, true, false, not, ◌&&◌, ◌||◌, Option, none, some, String, List, ◌∷◌, ◌==◌, leb,
  if◌then◌else◌, str_eq, is_text, or_default, length, find?, any, select, update_where, sort_by,
  map,
}
use qayoda_backend.Base.Actions.{
  Result, ok, err, ◌>>=◌, ◌>>◌, pure, raise, gets, or_raise, raise_if, modify, transaction,
}
use qayoda_backend.Billing.Types.{UserRole, UserStatus}
use qayoda_backend.Auth.Types.{Account, AuthIdentity, AuthProvider, provider_eq, Language, uz}
use qayoda_backend.Auth.Store.{
  AuthDb, AuthFailure, Action, fresh_id, is_kept, has_id, account_deleted, identity_taken,
  provider_already_linked, last_identity, identity_not_linked, no_row, unique_violation,
}

-- `IdentityInput`, less the provider's snapshot of the profile.
pub record IdentityInput : Type 0 where
  pub provider : AuthProvider
  pub provider_id : String
  pub verified_email : Option String
  pub verified_phone : Option String
  pub name : Option String
  pub surname : Option String
  pub avatar_url : Option String
  pub language : Option Language

-- A text that JavaScript takes for true.
abbrev pub given : Option String → Option String
given none = none
given (some s) = if str_eq s "" then none else some s

abbrev pub plus : String → String
plus s = String.◌∷◌ "+" s

abbrev pub is_identity : AuthProvider → String → AuthIdentity → Bool
is_identity provider id i = provider_eq provider i.provider && str_eq id i.provider_id

abbrev pub is_provider_of : ℕ → AuthProvider → AuthIdentity → Bool
is_provider_of user provider i = i.user_id == user && provider_eq provider i.provider

-- The unique indexes of the table.
abbrev pub identity_clash : ℕ → AuthProvider → String → AuthIdentity → Bool
identity_clash user provider id i = is_identity provider id i || is_provider_of user provider i

unfoldable pub insert_identity : ℕ → AuthProvider → String → Action AuthIdentity
insert_identity user provider provider_id = do
  raise_if (← gets λ db. any (identity_clash user provider provider_id) db.identities)
      unique_violation
  id ← fresh_id
  now ← gets λ db. db.now
  let row : AuthIdentity = record {
    id = id;
    user_id = user;
    provider = provider;
    provider_id = provider_id;
    last_used_at = some now;
    created_at = now;
  }
  modify λ db. record db { identities = row ∷ db.identities }
  pure row

-- The unique indexes on the phone and the email.
abbrev pub contact_clash : Option String → Option String → Account → Bool
contact_clash phone email u =
    elim phone [ none ↦ false | some p ↦ is_text p u.phone_number ]
    || elim email [ none ↦ false | some e ↦ is_text e u.email ]

abbrev pub new_account : ℕ → IdentityInput → Account
new_account id input = record {
  id = id;
  name = input.name;
  surname = input.surname;
  avatar_url = input.avatar_url;
  phone_number = elim (given input.verified_phone) [ none ↦ none | some p ↦ some (plus p) ];
  password_hash = none;
  email = input.verified_email;
  language = or_default input.language uz;
  role = UserRole.user;
  status = UserStatus.active;
  ban_reason = none;
  ban_expires_at = none;
  is_verified_realtor = false;
  tokens_valid_from = none;
  deleted_at = none;
}

unfoldable pub insert_account : IdentityInput → Action Account
insert_account input = do
  id ← fresh_id
  let u : Account = new_account id input
  raise_if (← gets λ db. any (contact_clash u.phone_number u.email) db.users) unique_violation
  modify λ db. record db { users = u ∷ db.users }
  pure u

unfoldable pub find_by_verified_contact : IdentityInput → AuthDb → Option Account
find_by_verified_contact input db = elim (given input.verified_phone) [
  | some p ↦ find? (λ u. is_text (plus p) u.phone_number && is_kept u.deleted_at) db.users
  | none ↦ elim (given input.verified_email) [
    | some e ↦ find? (λ u. is_text e u.email && is_kept u.deleted_at) db.users
    | none ↦ none
  ]
]

-- A blank is filled, what stands there is kept.
abbrev pub filled : Option String → Option String → Option String
filled old new = elim (given old) [
  | some s ↦ some s
  | none ↦ elim (given new) [ none ↦ old | some s ↦ some s ]
]

abbrev pub enriched : IdentityInput → Account → Account
enriched input u = record u {
  name = filled u.name input.name;
  surname = filled u.surname input.surname;
  avatar_url = filled u.avatar_url input.avatar_url;
  email = filled u.email input.verified_email;
  phone_number =
      filled u.phone_number
        (elim (given input.verified_phone) [ none ↦ none | some p ↦ some (plus p) ]);
}

-- The contact details that `enrich` adds clash with another account's.
abbrev pub others_clash : Account → Account → Bool
others_clash u x = not (x.id == u.id) && contact_clash u.phone_number u.email x

abbrev pub adds : Option String → Option String → Bool
adds old new = not (is_some (given old)) && is_some (given new)

-- `dirty`
abbrev pub is_dirty : IdentityInput → Account → Bool
is_dirty input u =
    adds u.name input.name
    || adds u.surname input.surname
    || adds u.avatar_url input.avatar_url
    || adds u.email input.verified_email
    || adds u.phone_number input.verified_phone

unfoldable pub enrich : Account → IdentityInput → Action Account
enrich u input = if not (is_dirty input u) then pure u else (do
  let u' : Account = enriched input u
  raise_if (← gets λ db. any (others_clash u') db.users) unique_violation
  modify λ db. record db { users = update_where (λ x. x.id == u.id) (λ _. u') db.users }
  pure u')

abbrev pub used : ℕ → AuthIdentity → AuthIdentity
used now i = record i { last_used_at = some now }

-- A known identity: its user, if it is kept.
unfoldable pub sign_in_known : AuthIdentity → Action (Account × Bool)
sign_in_known i = do
  u ← or_raise (← gets λ db. find? (has_id i.user_id) db.users) account_deleted
  modify
      λ db. record db { identities = update_where (λ x. x.id == i.id) (used db.now) db.identities }
  pure (u, false)

unfoldable pub sign_in_matched : Account → IdentityInput → Action (Account × Bool)
sign_in_matched matched input = do
  insert_identity matched.id input.provider input.provider_id
  u ← enrich matched input
  pure (u, false)

unfoldable pub sign_up : IdentityInput → Action (Account × Bool)
sign_up input = do
  u ← insert_account input
  insert_identity u.id input.provider input.provider_id
  pure (u, true)

-- The user and whether it is new.
unfoldable pub resolve_in : IdentityInput → Action (Account × Bool)
resolve_in input = do
  existing ← gets λ db. find? (is_identity input.provider input.provider_id) db.identities
  matched ← gets (find_by_verified_contact input)
  elim existing [
    | some i ↦ sign_in_known i
    | none ↦ elim matched [ some u ↦ sign_in_matched u input | none ↦ sign_up input ]
  ]

abbrev pub is_unique_violation : AuthFailure → Bool
is_unique_violation unique_violation = true
is_unique_violation _ = false

-- One retry after a unique violation; other requests may run before it, so its state is a
-- parameter, what they make of the state that the first try left.
unfoldable pub retried :
    Action (Account × Bool)
    → (AuthDb → AuthDb)
    → Result AuthFailure (Account × Bool) × AuthDb
    → Result AuthFailure (Account × Bool) × AuthDb
retried again between (ok a, db) = (ok a, db)
retried again between (err e, db) =
    if is_unique_violation e then again (between db) else (err e, db)

unfoldable pub resolve : (AuthDb → AuthDb) → IdentityInput → Action (Account × Bool)
resolve between input db =
    retried (transaction (resolve_in input)) between (transaction (resolve_in input) db)

-- `link` of an identity that nobody has.
unfoldable pub link_new : ℕ → IdentityInput → Action AuthIdentity
link_new user input = do
  raise_if (← gets λ db. any (is_provider_of user input.provider) db.identities)
      provider_already_linked
  i ← insert_identity user input.provider input.provider_id
  u ← or_raise (← gets λ db. find? (has_id user) db.users) no_row
  enrich u input
  pure i

unfoldable pub link_in : ℕ → IdentityInput → Action AuthIdentity
link_in user input = do
  taken ← gets λ db. find? (is_identity input.provider input.provider_id) db.identities
  elim taken [
    | some i ↦ if i.user_id == user then pure i else raise identity_taken
    | none ↦ link_new user input
  ]

unfoldable pub link : ℕ → IdentityInput → Action AuthIdentity
link user input = transaction (link_in user input)

abbrev pub without_contact : AuthProvider → Account → Account
without_contact AuthProvider.phone u = record u { phone_number = none }
without_contact AuthProvider.google u = record u { email = none }
without_contact AuthProvider.telegram u = u

unfoldable pub unlink_in : ℕ → AuthProvider → Action (Unit {0})
unlink_in user provider = do
  identities ← gets λ db. select (λ i. i.user_id == user) db.identities
  raise_if (leb (length identities) 1) last_identity
  raise_if (not (any (λ i. provider_eq provider i.provider) identities)) identity_not_linked
  modify λ db. record db {
    identities = select (λ i. not (is_provider_of user provider i)) db.identities;
    users = update_where (λ u. u.id == user) (without_contact provider) db.users;
  }

unfoldable pub unlink : ℕ → AuthProvider → Action (Unit {0})
unlink user provider = transaction (unlink_in user provider)

-- The columns that the list selects.
pub record IdentityView : Type 0 where
  pub id : ℕ
  pub provider : AuthProvider
  pub created_at : ℕ
  pub last_used_at : Option ℕ

-- Oldest first.
unfoldable pub list_for : ℕ → AuthDb → List IdentityView
list_for user db =
    map
      (λ i. record {
        id = i.id;
        provider = i.provider;
        created_at = i.created_at;
        last_used_at = i.last_used_at;
      })
      (sort_by (λ a b. leb a.created_at b.created_at)
        (select (λ i. i.user_id == user) db.identities))
