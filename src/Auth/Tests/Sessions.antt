-- ===== src/Auth/Tests/Sessions.antt =====
-- The theorems on sessions at concrete inputs.
use qayoda_backend.Base.{◌≤◌, ◌≡◌, refl, true, none, some, [], ◌∷◌, arith, All, is_some}
use qayoda_backend.Base.Actions.{ok, err}
use qayoda_backend.Auth.Types.{RefreshToken}
use qayoda_backend.Auth.Store.{AuthDb, token_reuse_detected, token_revoked}
use qayoda_backend.Auth.Tokens.{
  issue_pair, insert_token, rotate, rotate_parts, claim_token, issued_row, access_of, view_of,
  dotted, revoke_all_for,
}
use qayoda_backend.Auth.Guard.{can_activate}
use qayoda_backend.Auth.Sessions.Live.{live_in}
use qayoda_backend.Auth.Sessions.Runs.{Run, Reach, here, next, sign_in, empty_run}
use qayoda_backend.Auth.Sessions.Kept.{Reach-single}
use qayoda_backend.Auth.Sessions.Once.{claim_token-once}
use qayoda_backend.Auth.Sessions.Rotate.{rotate_parts-Reach}
use qayoda_backend.Auth.Sessions.Exchange.{rotate-issued}
use qayoda_backend.Auth.LogOut.{revoke_all_for-admits}
use qayoda_backend.Auth.Tests.Data.{aziza, start, plain}

-- The row of the token that the account's first sign-in issues.
abbrev first_row : RefreshToken
first_row = issued_row 5000000 0 7 "aa" "x1"

abbrev signed_in : AuthDb
signed_in = record start { next_id = 1; refreshes = first_row ∷ [] }

abbrev run_of : AuthDb → Run
run_of db = record { db = db; reads = []; pending = λ _. 0 }

signed_in-Reach : Reach (empty_run 5000000 (aziza ∷ [])) (run_of signed_in)
unfolding issue_pair insert_token
signed_in-Reach = next here (sign_in plain "x1" "aa" aziza refl)

Reach-single_example : live_in "aa" signed_in.refreshes ≤ 1
Reach-single_example = Reach-single 5000000 (aziza ∷ []) "aa" signed_in-Reach

abbrev claimed_db : AuthDb
claimed_db = record signed_in { refreshes = record first_row { revoked_at = some 5000000 } ∷ [] }

first_claim : claim_token first_row signed_in ≡ (ok tt, claimed_db)
unfolding claim_token
first_claim = refl

claim_token-once_example :
    ((claim_token first_row claimed_db).0 ≡ err token_reuse_detected)
    × (live_in "aa" (claim_token first_row claimed_db).1.refreshes ≡ 0)
claim_token-once_example =
    claim_token-once first_row first_row (run_of signed_in) (run_of claimed_db) (run_of claimed_db)
      (omega arith) first_claim here refl

rotate_parts-Reach_example :
    (s : Run) × Reach (run_of signed_in) s
    × (s.db ≡ (rotate_parts plain "x2" "bb" "aa" "x1" signed_in).1)
rotate_parts-Reach_example = rotate_parts-Reach plain "x2" "bb" "aa" "x1" (run_of signed_in)

rotate-issued_example :
    (rotate plain "x2" "bb" "aa.x1" (issue_pair plain "x1" "aa" aziza none start).1).0
    ≡ ok (record {
      access_token = access_of 5000000 aziza;
      refresh_token = "aa.x2";
      user = view_of aziza;
    })
unfolding dotted
rotate-issued_example =
    rotate-issued plain "x1" "aa" "x2" "bb" aziza none start refl refl refl tt refl refl

revoke_all_for-admits_example :
    ((can_activate (some 7) (some 4999) (revoke_all_for 7 signed_in)).0 ≡ err token_revoked)
    × All (λ t. t.user_id ≡ 7 → is_some t.revoked_at ≡ true) (revoke_all_for 7 signed_in).refreshes
revoke_all_for-admits_example = revoke_all_for-admits 7 4999 aziza signed_in refl refl
