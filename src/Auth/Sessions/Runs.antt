-- ===== src/Auth/Sessions/Runs.antt =====
-- Requests that run at once: a rotation is a read, a claim and the issue of the new pair, and
-- between these any other requests run (auth/services/token.service.ts).
use qayoda_backend.Base.{
  ℕ, ◌+◌, ◌-◌, ◌≤◌, ◌≡◌, Bool, Option, none, some, String, List, [], ◌∷◌, find?, str_eq,
  if◌then◌else◌,
}
use qayoda_backend.Base.Actions.{Result, ok, err}
use qayoda_backend.Auth.Types.{Account, RefreshToken}
use qayoda_backend.Auth.Store.{AuthDb, AuthFailure}
use qayoda_backend.Auth.Tokens.{
  issue_pair, rotate_read, claim, revoke_session, revoke_other_sessions, revoke_all_for,
  purge_expired,
}
use qayoda_backend.Auth.Sessions.Live.{live_in}

-- The rows that rotations have read, and for each family how many of them have claimed a token
-- and not yet issued the next.
pub record Run : Type 0 where
  pub db : AuthDb
  pub reads : List RefreshToken
  pub pending : String → ℕ

abbrev pub one_more : String → (String → ℕ) → String → ℕ
one_more f pending g = pending g + (if str_eq g f then 1 else 0)

abbrev pub one_less : String → (String → ℕ) → String → ℕ
one_less f pending g = pending g - (if str_eq g f then 1 else 0)

abbrev pub noted : Run → Result AuthFailure (RefreshToken × Option Account) × AuthDb → Run
noted r (ok (row, _), db) = record r { db = db; reads = row ∷ r.reads }
noted r (err e, db) = record r { db = db }

abbrev pub claimed : Run → RefreshToken → Result AuthFailure Account × AuthDb → Run
claimed r x (ok user, db) = record r { db = db; pending = one_more x.family_id r.pending }
claimed r x (err e, db) = record r { db = db }

-- The clock, and what other parts of the server write of the users.
abbrev pub configured : ℕ → List Account → AuthDb → AuthDb
configured now users db = record db { now = now; users = users }

pub data Step (r : Run) : Run → Type 0 where
  sign_in :
      (hash : String → String) (raw random : String) (user : Account)
      → live_in random r.db.refreshes + r.pending random ≡ 0
      → Step r (record r { db = (issue_pair hash raw random user none r.db).1 })
  read :
      (hash : String → String) (family raw : String)
      → Step r (noted r (rotate_read hash family raw r.db))
  take :
      (t : RefreshToken → Bool) (x : RefreshToken) (user : Option Account)
      → find? t r.reads ≡ some x
      → Step r (claimed r x (claim x user r.db))
  finish :
      (hash : String → String) (raw random : String) (user : Account) (family : String)
      → 1 ≤ r.pending family
      → Step r (record r {
        db = (issue_pair hash raw random user (some family) r.db).1;
        pending = one_less family r.pending;
      })
  log_out : (user : ℕ) → Step r (record r { db = revoke_all_for user r.db })
  end_session :
      (user : ℕ) (family : String) → Step r (record r { db = revoke_session user family r.db })
  end_others :
      (user : ℕ) (keep : String) → Step r (record r { db = revoke_other_sessions user keep r.db })
  purge : Step r (record r { db = purge_expired r.db })
  configure :
      (now : ℕ) (users : List Account) → Step r (record r { db = configured now users r.db })

pub data Reach (start : Run) : Run → Type 0 where
  here : Reach start start
  next : {s t : Run} → Reach start s → Step s t → Reach start t

-- No tokens, and no rotation under way.
abbrev pub empty_run : ℕ → List Account → Run
empty_run now users = record {
  db = record {
    now = now;
    next_id = 0;
    users = users;
    refreshes = [];
    otps = [];
    identities = [];
    cache = λ _. none;
  };
  reads = [];
  pending = λ _. 0;
}
