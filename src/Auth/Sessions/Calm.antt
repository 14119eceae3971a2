-- ===== src/Auth/Sessions/Calm.antt =====
-- The methods that make no token live: revocations, reads and the nightly purge
-- (auth/services/token.service.ts).
use qayoda_backend.Base.{
  ℕ, ◌≤◌, ◌≡◌, refl, Bool, true, ◌&&◌, Option, none, some, String, arith, ◌==◌, ltb, is_some, All,
  All-select, find?, update_where-keeps, Bool-cases, Option-cases, inl, inr,
}
use qayoda_backend.Base.Actions.{Result, ok, err}
use qayoda_backend.Auth.Types.{Account, RefreshToken}
use qayoda_backend.Auth.Store.{AuthDb, AuthFailure, is_banned, token_reuse_detected}
use qayoda_backend.Auth.Tokens.{
  is_live, revoked, revoke_where, revoke_family, revoke_session, revoke_other_sessions,
  revoke_all_for, purge_expired, burn, check_owner, rotate_read, is_presented,
}
use qayoda_backend.Auth.Sessions.Live.{live_in, live_in-revoked, live_in-select}

-- No key is used up, what holds of the rows and of their revocations still holds of them, and no
-- family has more live tokens than it had.
pub record IsCalm (s t : AuthDb) : Type 1 where
  pub ids : t.next_id ≡ s.next_id
  pub rows :
      (P : RefreshToken → Type 0)
      → ((x : RefreshToken) (now : ℕ) → P x → P (revoked now x))
      → All P s.refreshes
      → All P t.refreshes
  pub live : (f : String) → live_in f t.refreshes ≤ live_in f s.refreshes

pub IsCalm-refl : (s : AuthDb) → IsCalm s s
IsCalm-refl s = record { ids = refl; rows = λ P g h. h; live = λ f. omega arith }

pub IsCalm-trans : (s t u : AuthDb) → IsCalm s t → IsCalm t u → IsCalm s u
IsCalm-trans s t u h k = record {
  ids = ground (arith, h.ids, k.ids);
  rows = λ P g a. k.rows P g (h.rows P g a);
  live = λ f. ground (arith, h.live f, k.live f);
}

pub revoke_where-IsCalm : (t : RefreshToken → Bool) (db : AuthDb) → IsCalm db (revoke_where t db)
revoke_where-IsCalm t db = record {
  ids = refl;
  rows = λ P g.
      update_where-keeps P (λ r. t r && is_live r) (revoked db.now) db.refreshes
        (λ x p. g x db.now p);
  live = λ f. live_in-revoked t db.now f db.refreshes;
}

pub revoke_family-IsCalm : (f : String) (db : AuthDb) → IsCalm db (revoke_family f db)
unfolding revoke_family
revoke_family-IsCalm f db = revoke_where-IsCalm _ db

pub revoke_session-IsCalm :
    (user : ℕ) (f : String) (db : AuthDb) → IsCalm db (revoke_session user f db)
unfolding revoke_session
revoke_session-IsCalm user f db = revoke_where-IsCalm _ db

pub revoke_other_sessions-IsCalm :
    (user : ℕ) (f : String) (db : AuthDb) → IsCalm db (revoke_other_sessions user f db)
unfolding revoke_other_sessions
revoke_other_sessions-IsCalm user f db = revoke_where-IsCalm _ db

pub revoke_all_for-IsCalm : (user : ℕ) (db : AuthDb) → IsCalm db (revoke_all_for user db)
unfolding revoke_all_for
revoke_all_for-IsCalm user db =
    let h = revoke_where-IsCalm (λ t. t.user_id == user) db in
    record { ids = h.ids; rows = h.rows; live = h.live }

pub purge_expired-IsCalm : (db : AuthDb) → IsCalm db (purge_expired db)
unfolding purge_expired
purge_expired-IsCalm db = record {
  ids = refl;
  rows = λ P g. All-select P _ db.refreshes;
  live = λ f. live_in-select _ f db.refreshes;
}

pub burn_lem :
    (f : String) (db : AuthDb) → burn f db ≡ (err token_reuse_detected, revoke_family f db)
unfolding burn
burn_lem f db = refl

pub check_owner-IsCalm :
    (row : RefreshToken) (user : Option Account) (db : AuthDb)
    → IsCalm db (check_owner row user db).1
unfolding check_owner
check_owner-IsCalm row none db = IsCalm-refl db
check_owner-IsCalm row (some user) db = elim (Bool-cases (is_banned user.status)) [
  | inl yes_banned ↦ rw yes_banned (revoke_all_for-IsCalm row.user_id db)
  | inr fine ↦ rw fine (IsCalm-refl db)
]

module _ (hash : String → String) (family raw : String) where
  -- What `rotate` reads: it raises, or the row that it found is one of the table's, live, of the
  -- family that was presented.
  pub data IsRead (db : AuthDb)
      : Result AuthFailure (RefreshToken × Option Account) × AuthDb → Type 1 where
    refused : (e : AuthFailure) (t : AuthDb) → IsCalm db t → IsRead db (err e, t)
    found :
        (row : RefreshToken) (user : Option Account)
        → find? (is_presented hash family raw) db.refreshes ≡ some row
        → is_live row ≡ true
        → IsRead db (ok (row, user), db)

  pub rotate_read-IsRead : (db : AuthDb) → IsRead db (rotate_read hash family raw db)
  unfolding rotate_read
  rotate_read-IsRead db = elim (Option-cases (find? (is_presented hash family raw) db.refreshes)) [
    | inl missing ↦ rw missing (refused _ db (IsCalm-refl db))
    | inr (row, hit) ↦ elim (Bool-cases (is_some row.revoked_at)) [
      | inl replayed ↦
          rw (hit, replayed, burn_lem family db) (refused _ _ (revoke_family-IsCalm family db))
      | inr live ↦ elim (Bool-cases (ltb row.expires_at db.now)) [
        | inl late ↦ rw (hit, live, late) (refused _ db (IsCalm-refl db))
        | inr fresh ↦ rw (hit, live, fresh) (found row _ hit (rw live refl))
      ]
    ]
  ]
