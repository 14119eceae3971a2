-- ===== src/Auth/LogOut.antt =====
-- The end of every session of an account: TokenService.revokeAllFor and JwtAccessGuard
-- (auth/services/token.service.ts, auth/guards/jwt-access.guard.ts).
use qayoda_backend.Base.{
  ℕ, ◌/◌, ◌≡◌, refl, true, none, some, All, All-map, find?, find?-update_where, ◌==◌, ==_iff, ltb,
  is_some, if◌then◌else◌, Bool-cases, inl, inr,
}
use qayoda_backend.Base.Actions.{ok, err}
use qayoda_backend.Auth.Types.{Account}
use qayoda_backend.Auth.Store.{AuthDb, token_revoked, account_banned}
use qayoda_backend.Auth.Tokens.{revoke_all_for}
use qayoda_backend.Auth.Guard.{can_activate, get_state, load_state, admit, is_banned_at, state_of}
use qayoda_backend.Auth.Sessions.Live.{revoke_rows-revoked}

-- The account's row after its tokens were revoked.
abbrev cut_off : ℕ → Account → Account
cut_off now u = record u { tokens_valid_from = some now }

-- After every session of an account was ended, all its refresh tokens are revoked, and an access
-- token of an account that is kept is refused with TOKEN_REVOKED if it was issued in an earlier
-- second than that; one issued since then is refused only if the account is banned, and else has
-- the account's role. What the guard's cache held before makes no difference.
pub revoke_all_for-admits :
    (user iat : ℕ) (u : Account) (db : AuthDb)
    → find? (λ x. x.id == user) db.users ≡ some u
    → u.deleted_at ≡ none
    → ((can_activate (some user) (some iat) (revoke_all_for user db)).0 ≡ (
        if ltb iat (db.now / 1000)
        then err token_revoked
        else if is_banned_at db.now (state_of db.now u)
        then err account_banned
        else ok u.role))
      × All (λ t. t.user_id ≡ user → is_some t.revoked_at ≡ true) (revoke_all_for user db).refreshes
unfolding can_activate get_state load_state admit revoke_all_for
revoke_all_for-admits user iat u db known kept =
    let row = find?-update_where (λ x. x.id == user) (cut_off db.now) db.users u (λ y h. h) known in
    let ended =
      All-map (λ t. (t.user_id == user) ≡ true → is_some t.revoked_at ≡ true)
        (λ t. t.user_id ≡ user → is_some t.revoked_at ≡ true) _
        (λ t k e. k ((==_iff t.user_id user).1 e))
        (revoke_rows-revoked (λ t. t.user_id == user) db.now db.refreshes (λ t. refl)) in
    (
      elim (Bool-cases (ltb iat (db.now / 1000))) [
        | inl old ↦ rw ((==_iff user user).1 refl, row, kept, old) refl
        | inr since ↦ elim (Bool-cases (is_banned_at db.now (state_of db.now u))) [
          | inl ban ↦ rw ((==_iff user user).1 refl, row, kept, since, ban) refl
          | inr fine ↦ rw ((==_iff user user).1 refl, row, kept, since, fine) refl
        ]
      ],
      ended,
    )
