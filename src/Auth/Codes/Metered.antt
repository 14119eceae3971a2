-- ===== src/Auth/Codes/Metered.antt =====
-- The budget of the one-time codes of a number (auth/services/phone-auth.service.ts).
use qayoda_backend.Base.{
  ℕ, ◌+◌, ◌≤◌, ◌<◌, ◌≡◌, String, List, arith, All, count_if, count_if-implies,
}
use qayoda_backend.Auth.Types.{PhoneOtpCode, max_attempts, max_per_hour}
use qayoda_backend.Auth.Store.{AuthDb}
use qayoda_backend.Auth.Otp.{is_outstanding, is_of_hour}

-- The rows of the code's key have its number of wrong guesses.
abbrev pub Agrees : List PhoneOtpCode → PhoneOtpCode → Type 0
Agrees rows x = All (λ o. o.id ≡ x.id → o.attempts ≡ x.attempts) rows

-- Every number has one outstanding code at most and five codes of the last hour at most, and no
-- code has more than five wrong guesses.
pub record IsMetered (db : AuthDb) : Type 0 where
  pub below : All (λ o. o.id < db.next_id) db.otps
  pub agree : All (Agrees db.otps) db.otps
  pub guesses : All (λ o. o.attempts ≤ max_attempts) db.otps
  pub outstanding : (p : String) → count_if (is_outstanding p) db.otps ≤ 1
  pub hourly : (p : String) → count_if (is_of_hour db.now p) db.otps ≤ max_per_hour

-- Time goes on.
pub later-IsMetered :
    (n : ℕ) (db : AuthDb) → IsMetered db → IsMetered (record db { now = db.now + n })
later-IsMetered n db h = record {
  below = h.below;
  agree = h.agree;
  guesses = h.guesses;
  outstanding = h.outstanding;
  hourly = λ p. ground (
    arith,
    h.hourly p,
    count_if-implies (is_of_hour (db.now + n) p) (is_of_hour db.now p) db.otps
        (λ o e. ground arith),
  );
}
