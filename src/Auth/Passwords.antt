-- ===== src/Auth/Passwords.antt =====
-- What a password, or a code that replaces it, opens (auth/services/phone-auth.service.ts).
use qayoda_backend.Base.{
  ℕ, ◌≡◌, refl, sym, ap, Bool, true, false, ◌&&◌, some, String, arith, find?, find?-updated, ◌==◌,
  ==_iff, count_if, count_if-cleared, update_where, Bool-cases, Option-cases, inl, inr,
}
use qayoda_backend.Base.Actions.{Result, Result-cases, ok, err}
use qayoda_backend.Auth.Types.{Account, RefreshToken}
use qayoda_backend.Auth.Store.{AuthDb, AuthFailure, is_banned}
use qayoda_backend.Auth.Tokens.{Pair, is_live, revoked, revoke_all_for, issue_pair, insert_token}
use qayoda_backend.Auth.Identity.{given}
use qayoda_backend.Auth.Phone.{normalize_phone}
use qayoda_backend.Auth.Otp.{
  Review, holds, with_password, consume_code, login_with_password, reset_password,
}
use qayoda_backend.Auth.Codes.Tried.{
  IsTry, reviewed, refused, wrong, accepted, lost, consume_code-IsTry,
}

-- A try writes codes only.
pub record IsKept (s t : AuthDb) : Type 0 where
  pub users : t.users ≡ s.users
  pub refreshes : t.refreshes ≡ s.refreshes
  pub next_id : t.next_id ≡ s.next_id

try-IsKept :
    (review : Review) (compare : String → String → Bool) (p code : String) (db : AuthDb)
    (r : Result AuthFailure (Unit {0}) × AuthDb)
    → IsTry review compare p code db r
    → IsKept db r.1
try-IsKept review compare p code db _ (reviewed e) = record {
  users = refl;
  refreshes = refl;
  next_id = refl;
}
try-IsKept review compare p code db _ (refused e) = record {
  users = refl;
  refreshes = refl;
  next_id = refl;
}
try-IsKept review compare p code db _ (wrong row e o m) = record {
  users = refl;
  refreshes = refl;
  next_id = refl;
}
try-IsKept review compare p code db _ (accepted row o m) = record {
  users = refl;
  refreshes = refl;
  next_id = refl;
}
try-IsKept review compare p code db _ (lost row e o) = record {
  users = refl;
  refreshes = refl;
  next_id = refl;
}

abbrev owner : Result AuthFailure Pair → ℕ
owner (ok pair) = pair.user.id
owner (err e) = 0

abbrev pub owns_live : ℕ → RefreshToken → Bool
owns_live user t = t.user_id == user && is_live t

-- The account's row after a reset.
abbrev pub reset_row : ℕ → String → Account → Account
reset_row now h u = record u { password_hash = some h; tokens_valid_from = some now }

-- The database after the password was replaced and the sessions were ended.
abbrev replaced : String → Account → AuthDb → AuthDb
replaced h u db =
    revoke_all_for u.id
      (record db { users = update_where (λ x. x.id == u.id) (with_password h) db.users })

replaced-none_live :
    (h : String) (u : Account) (db : AuthDb)
    → count_if (owns_live u.id) (replaced h u db).refreshes ≡ 0
unfolding revoke_all_for
replaced-none_live h u db =
    count_if-cleared (owns_live u.id) (owns_live u.id) (revoked db.now) db.refreshes
      (λ x k. ground arith) (λ x k. k)

replaced-row :
    (p h : String) (u : Account) (db : AuthDb)
    → find? (holds p) db.users ≡ some u
    → find? (holds p) (replaced h u db).users ≡ some (reset_row (replaced h u db).now h u)
unfolding revoke_all_for
replaced-row p h u db known =
    let own = (==_iff u.id u.id).1 refl in
    let set : find? (holds p) (update_where (λ x. x.id == u.id) (with_password h) db.users)
        ≡ some (with_password h u) =
      rw own at (
        find?-updated (holds p) (λ x. x.id == u.id) (with_password h) db.users u (λ y. refl)
          known) in
    rw own at (
      find?-updated (holds p) (λ x. x.id == u.id)
        (λ x. record x { tokens_valid_from = some db.now })
        (update_where (λ x. x.id == u.id) (with_password h) db.users) (with_password h u)
        (λ y. refl) set)

module _ (review : Review) (encrypt : String → String) (compare : String → String → Bool)
    (hash : String → String) (raw random : String) where
  -- A session that a password opened is that of the account with the number, whose stored hash
  -- the password matches, and which is not banned.
  pub login_with_password-matched :
      (raw_phone password : String) (db t : AuthDb) (pair : Pair)
      → login_with_password review encrypt compare hash raw random raw_phone password db
        ≡ (ok pair, t)
      → (p : String) × (u : Account) × (h : String) × (normalize_phone raw_phone ≡ some p)
        × (find? (holds p) db.users ≡ some u)
        × (given u.password_hash ≡ some h)
        × (compare password h ≡ true)
        × (is_banned u.status ≡ false)
        × (pair.user.id ≡ u.id)
  unfolding login_with_password issue_pair insert_token
  login_with_password-matched raw_phone password db t pair e =
      elim (Option-cases (normalize_phone raw_phone)) [
        | inl bad ↦ absurd (cc (rw bad at e))
        | inr (p, good) ↦ elim (Option-cases (find? (holds p) db.users)) [
          | inl unknown ↦ absurd (cc (rw (good, unknown) at e))
          | inr (u, known) ↦ elim (Option-cases (given u.password_hash)) [
            | inl unset ↦ absurd (cc (rw (good, known, unset) at e))
            | inr (h, set) ↦ elim (Bool-cases (compare password h)) [
              | inr no_match ↦ absurd (cc (rw (good, known, set, no_match) at e))
              | inl match ↦ elim (Bool-cases (is_banned u.status)) [
                | inl ban ↦ absurd (cc (rw (good, known, set, match, ban) at e))
                | inr fine ↦
                    let opened = rw (good, known, set, match, fine) at e in
                    (p, u, h, good, known, set, match, fine, sym (ap (λ q. owner q.0) opened))
              ]
            ]
          ]
        ]
      ]

  -- A reset that succeeds leaves the account with the number, which is not banned, with the new
  -- password and with one live refresh token, the new session's: every other session is ended.
  pub reset_password-ends_others :
      (raw_phone code password : String) (db t : AuthDb) (pair : Pair)
      → reset_password review encrypt compare hash raw random raw_phone code password db
        ≡ (ok pair, t)
      → (p : String) × (u : Account) × (normalize_phone raw_phone ≡ some p)
        × (find? (holds p) db.users ≡ some u)
        × (is_banned u.status ≡ false)
        × (find? (holds p) t.users ≡ some (reset_row t.now (encrypt password) u))
        × (count_if (owns_live u.id) t.refreshes ≡ 1)
  unfolding reset_password issue_pair insert_token
  reset_password-ends_others raw_phone code password db t pair e =
      elim (Option-cases (normalize_phone raw_phone)) [
        | inl bad ↦ absurd (cc (rw bad at e))
        | inr (p, good) ↦ elim (Result-cases (consume_code review compare p code db)) [
          | inr (x, s, wrong_one) ↦ absurd (cc (rw (good, wrong_one) at e))
          | inl (_, s, passed) ↦
              let kept : IsKept db s = rw passed at (
                try-IsKept review compare p code db _
                  (consume_code-IsTry review compare p code db)) in
              elim (Option-cases (find? (holds p) s.users)) [
                | inl unknown ↦ absurd (cc (rw (good, passed, unknown) at e))
                | inr (u, known) ↦ elim (Bool-cases (is_banned u.status)) [
                  | inl ban ↦ absurd (cc (rw (good, passed, known, ban) at e))
                  | inr fine ↦
                      let opened = rw (good, passed, known, fine) at e in
                      let last = ap (λ q. q.1) opened in
                      (
                        p,
                        u,
                        good,
                        rw (← kept.users) known,
                        fine,
                        rw (← last) (replaced-row p (encrypt password) u s known),
                        rw (← last) (
                            ground (
                              arith,
                              replaced-none_live (encrypt password) u s,
                              (==_iff u.id u.id).1 refl,
                            )),
                      )
                ]
              ]
        ]
      ]
