-- ===== src/Auth/Codes/Budget.antt =====
-- One request after another, no number gets more codes or guesses than its budget
-- (auth/services/phone-auth.service.ts).
use qayoda_backend.Base.{
  ℕ, ◌+◌, ◌-◌, ltb, ap, some, ◌≤◌, ◌<◌, ◌≡◌, refl, Bool, false, not, String, [], arith, All-map,
  All-both, All-select, update_where-All, update_where-keeps, ◌==◌, count_if-update_where,
  count_if-select, Option, none, if◌then◌else◌, select,
}
use qayoda_backend.Base.Actions.{Result, ok, err}
use qayoda_backend.Auth.Types.{PhoneOtpCode, Language, max_attempts}
use qayoda_backend.Auth.Store.{AuthDb, AuthFailure, otp_invalid}
use qayoda_backend.Auth.Otp.{
  Review, OtpPurpose, is_outstanding, is_of_hour, consumed, one_attempt, consume_code, request_code,
  purge_codes, is_review_phone, newest, outstanding_code,
}
use qayoda_backend.Auth.Codes.Metered.{IsMetered, Agrees, later-IsMetered}
use qayoda_backend.Auth.Codes.Requested.{request-IsMetered, request_code-IsRequest}
use qayoda_backend.Auth.Codes.Tried.{
  newest-All, newest-none, newest-fewer, is_row, guessed, spent, IsTry, reviewed, refused, wrong,
  accepted, lost, consume_code-IsTry,
}

guess-agrees :
    (row x o : PhoneOtpCode)
    → (o.id ≡ x.id → o.attempts ≡ x.attempts)
    → (if o.id == row.id then one_attempt o else o).id
      ≡ (if x.id == row.id then one_attempt x else x).id
    → (if o.id == row.id then one_attempt o else o).attempts
      ≡ (if x.id == row.id then one_attempt x else x).attempts
guess-agrees row x o h = ground (arith, h)

module _ (row : PhoneOtpCode) (db : AuthDb) where
  guessed-IsMetered :
      Agrees db.otps row → row.attempts < max_attempts → IsMetered db → IsMetered (guessed row db)
  guessed-IsMetered same room h = record {
    below =
        update_where-keeps (λ o. o.id < db.next_id) (λ o. o.id == row.id) one_attempt db.otps
          (λ o k. k) h.below;
    agree =
        update_where-All (Agrees db.otps) (Agrees (guessed row db).otps) (λ o. o.id == row.id)
          one_attempt db.otps
          (λ x k.
            update_where-All (λ o. o.id ≡ x.id → o.attempts ≡ x.attempts)
              (λ o.
                o.id ≡ (if x.id == row.id then one_attempt x else x).id
                → o.attempts ≡ (if x.id == row.id then one_attempt x else x).attempts)
              (λ o. o.id == row.id) one_attempt db.otps (λ o. guess-agrees row x o) k)
          h.agree;
    guesses =
        update_where-All
          (λ o. (o.attempts ≤ max_attempts) × (o.id ≡ row.id → o.attempts ≡ row.attempts))
          (λ o. o.attempts ≤ max_attempts) (λ o. o.id == row.id) one_attempt db.otps
          (λ o k. ground (arith, k.0, k.1)) (All-both _ _ db.otps h.guesses same);
    outstanding = λ p. ground (
      arith,
      h.outstanding p,
      count_if-update_where (is_outstanding p) (λ o. o.id == row.id) one_attempt db.otps
          (λ x k l. l),
    );
    hourly = λ p. ground (
      arith,
      h.hourly p,
      count_if-update_where (is_of_hour db.now p) (λ o. o.id == row.id) one_attempt db.otps
          (λ x k l. l),
    );
  }

  spent-IsMetered : IsMetered db → IsMetered (spent row db)
  spent-IsMetered h =
      let keeps = λ (P : PhoneOtpCode → Type 0).
        update_where-keeps P (is_row row) (consumed db.now) db.otps in
      record {
        below = keeps (λ o. o.id < db.next_id) (λ o k. k) h.below;
        agree =
            All-map (Agrees db.otps) (Agrees (spent row db).otps) _
              (λ x k. keeps (λ o. o.id ≡ x.id → o.attempts ≡ x.attempts) (λ o l. l) k)
              (keeps (Agrees db.otps) (λ o k. k) h.agree);
        guesses = keeps (λ o. o.attempts ≤ max_attempts) (λ o k. k) h.guesses;
        outstanding = λ p. ground (
          arith,
          h.outstanding p,
          count_if-update_where (is_outstanding p) (is_row row) (consumed db.now) db.otps
              (λ x k l. ground arith),
        );
        hourly = λ p. ground (
          arith,
          h.hourly p,
          count_if-update_where (is_of_hour db.now p) (is_row row) (consumed db.now) db.otps
              (λ x k l. l),
        );
      }

try-IsMetered :
    (review : Review) (compare : String → String → Bool) (p code : String) (db : AuthDb)
    (r : Result AuthFailure (Unit {0}) × AuthDb)
    → IsTry review compare p code db r
    → IsMetered db
    → IsMetered r.1
try-IsMetered review compare p code db _ (reviewed bypass) h = h
try-IsMetered review compare p code db _ (refused e) h = h
try-IsMetered review compare p code db _ (wrong row e is_open no_match) h =
    guessed-IsMetered row db
      (newest-All (Agrees db.otps) (is_outstanding p) db.otps row is_open.last h.agree).0
      is_open.room h
try-IsMetered review compare p code db _ (accepted row is_open match) h = spent-IsMetered row db h
try-IsMetered review compare p code db _ (lost row e is_open) h = spent-IsMetered row db h

purge_codes-IsMetered : (db : AuthDb) → IsMetered db → IsMetered (purge_codes db)
unfolding purge_codes
purge_codes-IsMetered db h =
    let kept = λ (o : PhoneOtpCode). not (ltb o.expires_at (db.now - 86400000)) in
    record {
      below = All-select (λ o. o.id < db.next_id) kept db.otps h.below;
      agree =
          All-map (Agrees db.otps) (Agrees (select kept db.otps)) (select kept db.otps)
            (λ x k. All-select (λ o. o.id ≡ x.id → o.attempts ≡ x.attempts) kept db.otps k)
            (All-select (Agrees db.otps) kept db.otps h.agree);
      guesses = All-select (λ o. o.attempts ≤ max_attempts) kept db.otps h.guesses;
      outstanding =
          λ p. ground (arith, h.outstanding p, count_if-select (is_outstanding p) kept db.otps);
      hourly = λ p. ground (arith, h.hourly p, count_if-select (is_of_hour db.now p) kept db.otps);
    }

-- Requests of codes, tries, the nightly purge and time, one after another.
pub data Step (db : AuthDb) : AuthDb → Type 0 where
  request :
      (review : Review) (encrypt : String → String)
      (deliver : String → String → Language → OtpPurpose → Bool) (code p : String)
      (lang : Option Language) (purpose : OtpPurpose)
      → Step db (request_code review encrypt deliver code p lang purpose db).1
  try :
      (review : Review) (compare : String → String → Bool) (p code : String)
      → Step db (consume_code review compare p code db).1
  purge : Step db (purge_codes db)
  later : (n : ℕ) → Step db (record db { now = db.now + n })

pub data Reach (start : AuthDb) : AuthDb → Type 0 where
  here : Reach start start
  next : {s t : AuthDb} → Reach start s → Step s t → Reach start t

Step-IsMetered : {s t : AuthDb} → Step s t → IsMetered s → IsMetered t
Step-IsMetered {s} (request review encrypt deliver code p lang purpose) h =
    request-IsMetered review encrypt deliver code p lang purpose s _
      (request_code-IsRequest review encrypt deliver code p lang purpose s) h
Step-IsMetered {s} (try review compare p code) h =
    try-IsMetered review compare p code s _ (consume_code-IsTry review compare p code s) h
Step-IsMetered {s} purge h = purge_codes-IsMetered s h
Step-IsMetered {s} (later n) h = later-IsMetered n s h

-- From a state without codes, after any requests of codes, tries and purges, one after another, as
-- time goes on: every number has one outstanding code at most and at most five codes of the last
-- hour, and no code was guessed wrong more than five times.
pub Reach-IsMetered : {s t : AuthDb} → s.otps ≡ [] → Reach s t → IsMetered t
Reach-IsMetered {s} e here = record {
  below = rw e tt;
  agree = rw e tt;
  guesses = rw e tt;
  outstanding = λ p. rw e (omega arith);
  hourly = λ p. rw e (omega arith);
}
Reach-IsMetered e (next r st) = Step-IsMetered st (Reach-IsMetered e r)

-- The row that is tried has the number's only outstanding key: once it is claimed none is left.
spent-none :
    (p : String) (row : PhoneOtpCode) (db : AuthDb)
    → newest (is_outstanding p) db.otps ≡ some row
    → IsMetered db
    → newest (is_outstanding p) (spent row db).otps ≡ none
spent-none p row db last h =
    let out =
      (newest-All (λ o. o.attempts ≤ max_attempts) (is_outstanding p) db.otps row last
        h.guesses).1 in
    newest-none (is_outstanding p) (spent row db).otps (
      ground (
        arith,
        h.outstanding p,
        newest-fewer (is_outstanding p) (is_row row) (consumed db.now) db.otps row
            (λ y k. ground arith) (ground (arith, out)) last,
      ))

once :
    (review : Review) (compare : String → String → Bool) (p code : String) (db t : AuthDb)
    (r : Result AuthFailure (Unit {0}) × AuthDb)
    → IsTry review compare p code db r
    → IsMetered db
    → is_review_phone review p ≡ false
    → r ≡ (ok tt, t)
    → newest (is_outstanding p) t.otps ≡ none
once review compare p code db t _ (reviewed bypass) h usual e = ground arith
once review compare p code db t _ (refused x) h usual e = absurd (cc e)
once review compare p code db t _ (wrong row x is_open no_match) h usual e = absurd (cc e)
once review compare p code db t _ (accepted row is_open match) h usual e =
    let same : spent row db ≡ t = ap (λ q. q.1) e in
    rw (← same) (spent-none p row db is_open.last h)
once review compare p code db t _ (lost row x is_open) h usual e = absurd (cc e)

-- A code is used once: after a try that passes without the review's bypass, every further try for
-- the number raises OTP_INVALID and changes nothing, until a new code is requested.
pub consume_code-once :
    (review : Review) (compare : String → String → Bool) (p code code' : String) (db t : AuthDb)
    → IsMetered db
    → is_review_phone review p ≡ false
    → consume_code review compare p code db ≡ (ok tt, t)
    → consume_code review compare p code' t ≡ (err otp_invalid, t)
unfolding consume_code outstanding_code
consume_code-once review compare p code code' db t h usual passed =
    let gone =
      once review compare p code db t _ (consume_code-IsTry review compare p code db) h usual
        passed in
    rw (usual, gone) refl
