-- ===== src/Auth/Sessions/Once.antt =====
-- A refresh token is exchanged once, and a replay ends its session
-- (auth/services/token.service.ts).
use qayoda_backend.Base.{
  ℕ, ◌<◌, ◌≡◌, refl, sym, ap, ◌∙◌, true, Option, none, some, String, List, [], ◌∷◌, arith, All,
  All-map, ==_iff, ◌==◌, str_eq, is_some, ◌&&◌, count_if, Bool-cases, inl, inr,
}
use qayoda_backend.Base.Actions.{Result, ok, err}
use qayoda_backend.Auth.Types.{Account, RefreshToken}
use qayoda_backend.Auth.Store.{AuthDb, AuthFailure, token_reuse_detected}
use qayoda_backend.Auth.Tokens.{issue_pair, is_live, claim_token, revoke_where, revoke_family}
use qayoda_backend.Auth.Sessions.Live.{live_in, revoke_rows-revoked, live_in-revoked_family}
use qayoda_backend.Auth.Sessions.Calm.{
  IsCalm, IsRead, refused, found, rotate_read-IsRead, revoke_all_for-IsCalm, revoke_session-IsCalm,
  revoke_other_sessions-IsCalm, purge_expired-IsCalm,
}
use qayoda_backend.Auth.Sessions.Claims.{
  IsClaim, refused as lost, won, claim-IsClaim, claim_token_lem, issue_pair_lem,
}
use qayoda_backend.Auth.Sessions.Runs.{
  Run, Step, sign_in, read, take, finish, log_out, end_session, end_others, purge, configure, Reach,
  here, next, noted, claimed,
}

-- The key was given out, and its row, if it is there, is revoked.
pub record IsSpent (id : ℕ) (db : AuthDb) : Type 0 where
  pub known : id < db.next_id
  pub rows : All (λ t. t.id ≡ id → is_some t.revoked_at ≡ true) db.refreshes

module _ (id : ℕ) where
  calm-IsSpent : (s t : AuthDb) → IsCalm s t → IsSpent id s → IsSpent id t
  calm-IsSpent s t c h = record {
    known = rw c.ids h.known;
    rows = c.rows (λ q. q.id ≡ id → is_some q.revoked_at ≡ true) (λ q now k e. refl) h.rows;
  }

  noted-IsSpent :
      (hash : String → String) (family raw : String) (r : Run)
      (result : Result AuthFailure (RefreshToken × Option Account) × AuthDb)
      → IsRead hash family raw r.db result
      → IsSpent id r.db
      → IsSpent id (noted r result).db
  noted-IsSpent hash family raw r _ (refused e t c) h = calm-IsSpent r.db t c h
  noted-IsSpent hash family raw r _ (found row user hit live) h = h

  claimed-IsSpent :
      (r : Run) (x : RefreshToken) (result : Result AuthFailure Account × AuthDb)
      → IsClaim x r.db result
      → IsSpent id r.db
      → IsSpent id (claimed r x result).db
  claimed-IsSpent r x _ (lost e t c) h = calm-IsSpent r.db t c h
  claimed-IsSpent r x _ (won user t c less) h = calm-IsSpent r.db t c h

  issued-IsSpent :
      (hash : String → String) (raw random : String) (user : Account) (family : Option String)
      (db : AuthDb)
      → IsSpent id db
      → IsSpent id (issue_pair hash raw random user family db).1
  issued-IsSpent hash raw random user family db h =
      rw (issue_pair_lem hash raw random user family db) (record {
        known = ground (arith, h.known);
        rows = (λ e. absurd (ground (arith, h.known)), h.rows);
      })

  Step-IsSpent : {r s : Run} → Step r s → IsSpent id r.db → IsSpent id s.db
  Step-IsSpent {r} (sign_in hash raw random user free) h =
      issued-IsSpent hash raw random user none r.db h
  Step-IsSpent {r} (read hash family raw) h =
      noted-IsSpent hash family raw r _ (rotate_read-IsRead hash family raw r.db) h
  Step-IsSpent {r} (take t x user hit) h = claimed-IsSpent r x _ (claim-IsClaim x r.db user) h
  Step-IsSpent {r} (finish hash raw random user family due) h =
      issued-IsSpent hash raw random user (some family) r.db h
  Step-IsSpent {r} (log_out user) h = calm-IsSpent r.db _ (revoke_all_for-IsCalm user r.db) h
  Step-IsSpent {r} (end_session user family) h =
      calm-IsSpent r.db _ (revoke_session-IsCalm user family r.db) h
  Step-IsSpent {r} (end_others user keep) h =
      calm-IsSpent r.db _ (revoke_other_sessions-IsCalm user keep r.db) h
  Step-IsSpent {r} purge h = calm-IsSpent r.db _ (purge_expired-IsCalm r.db) h
  Step-IsSpent {r} (configure now users) h = record { known = h.known; rows = h.rows }

  Reach-IsSpent : {r s : Run} → Reach r s → IsSpent id r.db → IsSpent id s.db
  Reach-IsSpent here h = h
  Reach-IsSpent (next r st) h = Step-IsSpent st (Reach-IsSpent r h)

  spent-count :
      (rows : List RefreshToken)
      → All (λ t. t.id ≡ id → is_some t.revoked_at ≡ true) rows
      → count_if (λ t. (t.id == id) && is_live t) rows ≡ 0
  spent-count [] h = refl
  spent-count (x ∷ xs) h = elim (Bool-cases (x.id == id)) [
    | inl hit ↦ ground (arith, spent-count xs h.1, h.0 ((==_iff x.id id).0 hit))
    | inr miss ↦ ground (arith, spent-count xs h.1)
  ]

-- After a claim that succeeds the row is spent.
claim_token-IsSpent :
    (x : RefreshToken) (db t : AuthDb)
    → x.id < db.next_id
    → claim_token x db ≡ (ok tt, t)
    → IsSpent x.id t
claim_token-IsSpent x db t lt done = elim (claim_token_lem x db) [
  | inl (one, e) ↦
      let same : revoke_where (λ q. q.id == x.id) db ≡ t = ap (λ p. p.1) (sym e ∙ done) in
      rw (← same) (record {
        known = lt;
        rows =
            All-map (λ q. (q.id == x.id) ≡ true → is_some q.revoked_at ≡ true)
              (λ q. q.id ≡ x.id → is_some q.revoked_at ≡ true) _
              (λ q k eq. k ((==_iff q.id x.id).1 eq))
              (revoke_rows-revoked (λ q. q.id == x.id) db.now db.refreshes (λ q. refl));
      })
  | inr (_, e) ↦ absurd (cc (rw e at done))
]

pub revoke_family-none_live :
    (f : String) (db : AuthDb) → live_in f (revoke_family f db).refreshes ≡ 0
unfolding revoke_family
revoke_family-none_live f db =
    live_in-revoked_family f _
      (revoke_rows-revoked (λ t. str_eq f t.family_id) db.now db.refreshes (λ x. refl))

-- A refresh token that one request has claimed is never exchanged again: after any further steps
-- of any requests, a second claim of it, with whatever copy of its row was read, raises
-- TOKEN_REUSE_DETECTED and leaves no live token in the copy's family.
pub claim_token-once :
    (x y : RefreshToken) (r s t : Run)
    → x.id < r.db.next_id
    → claim_token x r.db ≡ (ok tt, s.db)
    → Reach s t
    → y.id ≡ x.id
    → ((claim_token y t.db).0 ≡ err token_reuse_detected)
      × (live_in y.family_id (claim_token y t.db).1.refreshes ≡ 0)
claim_token-once x y r s t lt done later same =
    let spent = Reach-IsSpent x.id later (claim_token-IsSpent x r.db s.db lt done) in
    elim (claim_token_lem y t.db) [
      | inl (one, e) ↦
          absurd (ground (arith, one, spent-count y.id t.db.refreshes (rw same spent.rows)))
      | inr (_, e) ↦ rw e (refl, revoke_family-none_live y.family_id _)
    ]
