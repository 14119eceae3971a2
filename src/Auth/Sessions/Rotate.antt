-- ===== src/Auth/Sessions/Rotate.antt =====
-- `rotate` as a whole (auth/services/token.service.ts): uninterrupted it is steps of a run.
use qayoda_backend.Base.{
  ◌≤◌, ◌≡◌, refl, true, Option, String, arith, find?-some_test, eq_iff, str_eq, ◌&&◌, ◌||◌,
  Bool-cases, inl, inr,
}
use qayoda_backend.Base.Actions.{Result, ok, err, Result-cases}
use qayoda_backend.Auth.Types.{Account, RefreshToken}
use qayoda_backend.Auth.Store.{AuthDb, AuthFailure}
use qayoda_backend.Auth.Tokens.{rotate_read, rotate_parts, is_presented, claim}
use qayoda_backend.Auth.Sessions.Calm.{IsRead, refused, found, rotate_read-IsRead}
use qayoda_backend.Auth.Sessions.Runs.{Run, read, take, finish, Reach, here, next, noted, claimed}

module _ (hash : String → String) (new random family raw : String) where
  -- The row that was read is of the family that was presented.
  read-family :
      (db : AuthDb) (row : RefreshToken) (user : Option Account) (t : AuthDb)
      → rotate_read hash family raw db ≡ (ok (row, user), t)
      → family ≡ row.family_id
  read-family db row user t e = go _ e (rotate_read-IsRead hash family raw db)
    where
      go :
          (result : Result AuthFailure (RefreshToken × Option Account) × AuthDb)
          → result ≡ (ok (row, user), t)
          → IsRead hash family raw db result
          → family ≡ row.family_id
      go _ same (refused x u c) = absurd (cc same)
      go _ same (found row' user' hit live) =
          let rows : row' ≡ row = cc same in
          let test : str_eq family row'.family_id && str_eq (hash raw) row'.token_hash ≡ true =
            find?-some_test (is_presented hash family raw) db.refreshes row' hit in
          rw (← rows) ((eq_iff family row'.family_id).0 (ground arith))

  -- A rotation that nothing interrupts is steps of a run.
  pub rotate_parts-Reach :
      (r : Run) → (s : Run) × Reach r s × (s.db ≡ (rotate_parts hash new random family raw r.db).1)
  unfolding rotate_parts
  rotate_parts-Reach r = elim (Bool-cases (str_eq family "" || str_eq raw "")) [
    | inl blank ↦ rw blank (r, here, refl)
    | inr parts ↦ elim (Result-cases (rotate_read hash family raw r.db)) [
      | inr (x, t, e) ↦
          let st : Reach r (noted r (rotate_read hash family raw r.db)) =
            next here (read hash family raw) in
          rw (parts, e) (noted r (err x, t), rw e at st, refl)
      | inl ((row, user), t, e) ↦
          let st : Reach r (noted r (rotate_read hash family raw r.db)) =
            next here (read hash family raw) in
          let s : Run = noted r (ok (row, user), t) in
          let to_s : Reach r s = rw e at st in
          let taken : Reach r (claimed s row (claim row user t)) =
            next to_s (take (λ _. true) row user refl) in
          elim (Result-cases (claim row user t)) [
            | inr (x, t', e') ↦ rw (parts, e, e') (claimed s row (err x, t'), rw e' at taken, refl)
            | inl (u, t', e') ↦
                let s' : Run = claimed s row (ok u, t') in
                let to_s' : Reach r s' = rw e' at taken in
                let same : str_eq family row.family_id ≡ true =
                  (eq_iff family row.family_id).1 (read-family r.db row user t e) in
                let due : 1 ≤ s'.pending family = ground arith in
                rw (parts, e, e') (_, next to_s' (finish hash new random u family due), refl)
          ]
    ]
  ]
