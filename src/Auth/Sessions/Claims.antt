-- ===== src/Auth/Sessions/Claims.antt =====
-- The claim of a token that was read, and the issue of a pair (auth/services/token.service.ts).
use qayoda_backend.Base.{
  ◌+◌, ◌≡◌, ◌≢◌, ◌⊎◌, ==_iff, refl, ◌&&◌, Option, none, some, String, ◌∷◌, ◌==◌, or_default,
  count_if, Bool-cases, inl, inr,
}
use qayoda_backend.Base.Actions.{Result, ok, err}
use qayoda_backend.Auth.Types.{Account, RefreshToken}
use qayoda_backend.Auth.Store.{AuthDb, AuthFailure, is_banned, token_reuse_detected}
use qayoda_backend.Auth.Tokens.{
  is_live, revoke_where, claim, claim_token, check_owner, issue_pair, insert_token, issued_row,
  revoke_family,
}
use qayoda_backend.Auth.Sessions.Live.{live_in, IsOfFamily, live_in-claimed}
use qayoda_backend.Auth.Sessions.Calm.{
  IsCalm, IsCalm-trans, revoke_where-IsCalm, burn_lem, revoke_family-IsCalm, revoke_all_for-IsCalm,
}

module _ (x : RefreshToken) (db : AuthDb) where
  -- A claim revokes the one live row with the id, or finds none and revokes the family.
  pub claim_token_lem :
      ((count_if (λ t. (t.id == x.id) && is_live t) db.refreshes ≡ 1)
        × (claim_token x db ≡ (ok tt, revoke_where (λ t. t.id == x.id) db)))
      ⊎ ((count_if (λ t. (t.id == x.id) && is_live t) db.refreshes ≢ 1)
          × (claim_token x db ≡ (
            err token_reuse_detected,
            revoke_family x.family_id (revoke_where (λ t. t.id == x.id) db),
          )))
  unfolding claim_token
  claim_token_lem =
      elim (Bool-cases (count_if (λ t. (t.id == x.id) && is_live t) db.refreshes == 1)) [
        | inl one ↦ inl ((==_iff _ 1).0 one, rw one refl)
        | inr other ↦ inr (
          λ one. absurd (cc (rw ((==_iff _ 1).1 one) at other)),
          rw (other, burn_lem x.family_id _) refl,
        )
      ]

  -- What a claim and the tests of the owner do: they raise, or one live token of the family is
  -- gone.
  pub data IsClaim : Result AuthFailure Account × AuthDb → Type 1 where
    refused : (e : AuthFailure) (t : AuthDb) → IsCalm db t → IsClaim (err e, t)
    won :
        (user : Account) (t : AuthDb)
        → IsCalm db t
        → (IsOfFamily x.id x.family_id db.refreshes
            → live_in x.family_id t.refreshes + 1 ≡ live_in x.family_id db.refreshes)
        → IsClaim (ok user, t)

  checked :
      (user : Option Account)
      → count_if (λ t. (t.id == x.id) && is_live t) db.refreshes ≡ 1
      → IsClaim (check_owner x user (revoke_where (λ t. t.id == x.id) db))
  unfolding check_owner
  checked none one = refused _ _ (revoke_where-IsCalm _ db)
  checked (some user) one =
      let db' = revoke_where (λ t. t.id == x.id) db in
      elim (Bool-cases (is_banned user.status)) [
        | inl ban ↦ rw ban (
            refused _ _ (
              IsCalm-trans db db' _ (revoke_where-IsCalm _ db)
                (revoke_all_for-IsCalm x.user_id db')))
        | inr fine ↦ rw fine (
            won user db' (revoke_where-IsCalm _ db)
              (λ family. live_in-claimed x.id x.family_id db.now db.refreshes family one))
      ]

  pub claim-IsClaim : (user : Option Account) → IsClaim (claim x user db)
  unfolding claim
  claim-IsClaim user = elim claim_token_lem [
    | inl (one, e) ↦ rw e (checked user one)
    | inr (_, e) ↦ rw e (
        refused _ _
          (IsCalm-trans db _ _ (revoke_where-IsCalm _ db) (revoke_family-IsCalm x.family_id _)))
  ]

-- A pair that is issued inserts one live token of its family, with a new key.
pub issue_pair_lem :
    (hash : String → String) (raw random : String) (user : Account) (family : Option String)
    (db : AuthDb)
    → (issue_pair hash raw random user family db).1 ≡ record db {
      next_id = db.next_id + 1;
      refreshes =
          issued_row db.now db.next_id user.id (or_default family random) (hash raw) ∷ db.refreshes;
    }
unfolding issue_pair insert_token
issue_pair_lem hash raw random user family db = refl
