-- ===== src/Auth/Sessions/Kept.antt =====
-- Every step keeps a session to one live refresh token (auth/services/token.service.ts).
use qayoda_backend.Base.{
  ℕ, ◌+◌, ◌≤◌, ◌<◌, ◌≡◌, Option, none, some, String, List, ◌∷◌, arith, find?-All, eq_iff, str_eq,
  Bool-cases, inl, inr,
}
use qayoda_backend.Base.Actions.{Result}
use qayoda_backend.Auth.Types.{Account, RefreshToken}
use qayoda_backend.Auth.Store.{AuthDb, AuthFailure}
use qayoda_backend.Auth.Tokens.{issued_row}
use qayoda_backend.Auth.Sessions.Live.{live_in}
use qayoda_backend.Auth.Sessions.Calm.{
  IsRead, refused, found, rotate_read-IsRead, revoke_all_for-IsCalm, revoke_session-IsCalm,
  revoke_other_sessions-IsCalm, purge_expired-IsCalm,
}
use qayoda_backend.Auth.Sessions.Claims.{
  IsClaim, refused as lost, won, claim-IsClaim, issue_pair_lem,
}
use qayoda_backend.Auth.Sessions.Runs.{
  Run, Step, sign_in, read, take, finish, log_out, end_session, end_others, purge, configure, Reach,
  here, next, empty_run, noted, claimed, one_less,
}
use qayoda_backend.Auth.Sessions.Single.{IsSingle, Agrees, calm-IsSingle, issued-IsSingle}

noted-IsSingle :
    (hash : String → String) (family raw : String) (r : Run)
    (result : Result AuthFailure (RefreshToken × Option Account) × AuthDb)
    → IsRead hash family raw r.db result
    → IsSingle r
    → IsSingle (noted r result)
noted-IsSingle hash family raw r _ (refused e t c) h = calm-IsSingle r t c h
noted-IsSingle hash family raw r _ (found row user hit live) h = record {
  below = h.below;
  agree = h.agree;
  read_below =
      (find?-All (λ t. t.id < r.db.next_id) _ r.db.refreshes row h.below hit, h.read_below);
  read_agree = (find?-All (Agrees r.db.refreshes) _ r.db.refreshes row h.agree hit, h.read_agree);
  single = h.single;
}

claimed-IsSingle :
    (r : Run) (x : RefreshToken) (result : Result AuthFailure Account × AuthDb)
    → IsClaim x r.db result
    → Agrees r.db.refreshes x
    → IsSingle r
    → IsSingle (claimed r x result)
claimed-IsSingle r x _ (lost e t c) a h = calm-IsSingle r t c h
claimed-IsSingle r x _ (won user t c less) a h =
    let k = calm-IsSingle r t c h in
    record {
      below = k.below;
      agree = k.agree;
      read_below = k.read_below;
      read_agree = k.read_agree;
      single = λ f. elim (Bool-cases (str_eq f x.family_id)) [
        | inl same ↦
            let e : f ≡ x.family_id = (eq_iff f x.family_id).0 same in
            let gone : live_in f t.refreshes + 1 ≡ live_in f r.db.refreshes = rw e (less a) in
            ground (arith, gone, h.single f)
        | inr other ↦ ground (arith, k.single f)
      ];
    }

signed-IsSingle :
    (r : Run) (user : ℕ) (family token_hash : String) (f : String)
    → live_in family r.db.refreshes + r.pending family ≡ 0
    → IsSingle r
    → live_in f (issued_row r.db.now r.db.next_id user family token_hash ∷ r.db.refreshes)
        + r.pending f
      ≤ 1
signed-IsSingle r user family token_hash f free h = elim (Bool-cases (str_eq f family)) [
  | inl same ↦
      let e : f ≡ family = (eq_iff f family).0 same in
      let none_live : live_in f r.db.refreshes + r.pending f ≡ 0 = rw e free in
      ground (arith, none_live)
  | inr other ↦ ground (arith, h.single f)
]

finished-IsSingle :
    (r : Run) (user : ℕ) (family token_hash : String) (f : String)
    → 1 ≤ r.pending family
    → IsSingle r
    → live_in f (issued_row r.db.now r.db.next_id user family token_hash ∷ r.db.refreshes)
        + one_less family r.pending f
      ≤ 1
finished-IsSingle r user family token_hash f due h = elim (Bool-cases (str_eq f family)) [
  | inl same ↦
      let e : f ≡ family = (eq_iff f family).0 same in
      let waiting : 1 ≤ r.pending f = rw e due in ground (arith, waiting, h.single f)
  | inr other ↦ ground (arith, h.single f)
]

pub Step-IsSingle : {r s : Run} → Step r s → IsSingle r → IsSingle s
Step-IsSingle {r} (sign_in hash raw random user free) h =
    rw (issue_pair_lem hash raw random user none r.db) (
      issued-IsSingle r user.id random (hash raw) r.pending
        (λ f. signed-IsSingle r user.id random (hash raw) f free h) h)
Step-IsSingle {r} (read hash family raw) h =
    noted-IsSingle hash family raw r _ (rotate_read-IsRead hash family raw r.db) h
Step-IsSingle {r} (take t x user hit) h =
    claimed-IsSingle r x _ (claim-IsClaim x r.db user)
      (find?-All (Agrees r.db.refreshes) t r.reads x h.read_agree hit) h
Step-IsSingle {r} (finish hash raw random user family due) h =
    rw (issue_pair_lem hash raw random user (some family) r.db) (
      issued-IsSingle r user.id family (hash raw) (one_less family r.pending)
        (λ f. finished-IsSingle r user.id family (hash raw) f due h) h)
Step-IsSingle {r} (log_out user) h = calm-IsSingle r _ (revoke_all_for-IsCalm user r.db) h
Step-IsSingle {r} (end_session user family) h =
    calm-IsSingle r _ (revoke_session-IsCalm user family r.db) h
Step-IsSingle {r} (end_others user keep) h =
    calm-IsSingle r _ (revoke_other_sessions-IsCalm user keep r.db) h
Step-IsSingle {r} purge h = calm-IsSingle r _ (purge_expired-IsCalm r.db) h
Step-IsSingle {r} (configure now users) h = record {
  below = h.below;
  agree = h.agree;
  read_below = h.read_below;
  read_agree = h.read_agree;
  single = h.single;
}

Reach-IsSingle : {r s : Run} → Reach r s → IsSingle r → IsSingle s
Reach-IsSingle here h = h
Reach-IsSingle (next r st) h = Step-IsSingle st (Reach-IsSingle r h)

-- From an empty table of tokens, after any interleaving of sign-ins, of the reads, claims and
-- issues of rotations, of revocations and of purges: a family has one live refresh token at most.
pub Reach-single :
    (now : ℕ) (users : List Account) {r : Run} (f : String)
    → Reach (empty_run now users) r
    → live_in f r.db.refreshes ≤ 1
Reach-single now users f p =
    let start : IsSingle (empty_run now users) = record {
      below = tt;
      agree = tt;
      read_below = tt;
      read_agree = tt;
      single = λ g. omega arith;
    } in
    ground (arith, (Reach-IsSingle p start).single f)
