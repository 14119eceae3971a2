-- ===== src/Auth/Codes/Requested.antt =====
-- The request of a code (auth/services/phone-auth.service.ts).
use qayoda_backend.Base.{
  ◌+◌, ◌≤◌, ◌<◌, ◌≡◌, ◌⊎◌, refl, Bool, String, ◌∷◌, arith, All, All-map, update_where-keeps,
  All-both, leb, str_eq, eq_iff, count_if, count_if-update_where, count_if-cleared, update_where,
  Option, none, Bool-cases, Option-cases, inl, inr,
}
use qayoda_backend.Base.Actions.{Result, ok, err}
use qayoda_backend.Auth.Types.{PhoneOtpCode, Language, max_attempts, max_per_hour}
use qayoda_backend.Auth.Store.{AuthDb, AuthFailure, otp_rate_limited}
use qayoda_backend.Auth.Otp.{
  Review, OtpPurpose, Sent, is_outstanding, is_of_hour, consumed, code_row, cooldown, newest,
  assert_budget, write_code, request_code, is_review_phone, sms_language,
}
use qayoda_backend.Auth.Codes.Metered.{IsMetered, Agrees}

-- The rows after a new code.
abbrev pub with_code : String → String → AuthDb → AuthDb
with_code p code_hash db = record db {
  next_id = db.next_id + 1;
  otps =
      code_row db.now db.next_id p code_hash
      ∷ update_where (is_outstanding p) (consumed db.now) db.otps;
}

pub write_code_lem :
    (p code_hash : String) (db : AuthDb)
    → write_code p code_hash db ≡ (ok tt, with_code p code_hash db)
unfolding write_code
write_code_lem p code_hash db = refl

-- The tests of the budget read only, and pass only if there is room.
pub assert_budget_lem :
    (p : String) (db : AuthDb)
    → ((assert_budget p db ≡ (ok tt, db))
        × (count_if (is_of_hour db.now p) db.otps < max_per_hour)
        × (cooldown db.now (newest (λ o. str_eq p o.phone) db.otps) ≡ none))
      ⊎ ((e : AuthFailure) × (assert_budget p db ≡ (err e, db)))
unfolding assert_budget
assert_budget_lem p db =
    elim (Option-cases (cooldown db.now (newest (λ o. str_eq p o.phone) db.otps))) [
      | inr (e, early) ↦ inr (e, rw early refl)
      | inl late ↦ elim (Bool-cases (leb max_per_hour (count_if (is_of_hour db.now p) db.otps))) [
        | inl full ↦ inr (otp_rate_limited, rw (late, full) refl)
        | inr room ↦ inl (rw (late, room) refl, ground arith, late)
      ]
    ]

module _ (p code_hash : String) (db : AuthDb) where
  marked-All :
      (P : PhoneOtpCode → Type 0)
      → ((x : PhoneOtpCode) → P x → P (consumed db.now x))
      → All P db.otps
      → All P (update_where (is_outstanding p) (consumed db.now) db.otps)
  marked-All P = update_where-keeps P (is_outstanding p) (consumed db.now) db.otps

  with_code-outstanding :
      (q : String)
      → count_if (is_outstanding q) db.otps ≤ 1
      → count_if (is_outstanding q) (with_code p code_hash db).otps ≤ 1
  with_code-outstanding q h = elim (Bool-cases (str_eq q p)) [
    | inl same ↦
        let e : q ≡ p = (eq_iff q p).0 same in
        let cleared : count_if (is_outstanding p)
              (update_where (is_outstanding p) (consumed db.now) db.otps)
            ≡ 0 =
          count_if-cleared (is_outstanding p) (is_outstanding p) (consumed db.now) db.otps
            (λ x k. ground arith) (λ x k. k) in
        let none_left : count_if (is_outstanding q)
              (update_where (is_outstanding p) (consumed db.now) db.otps)
            ≡ 0 =
          rw e cleared in
        ground (arith, none_left)
    | inr other ↦ ground (
      arith,
      h,
      count_if-update_where (is_outstanding q) (is_outstanding p) (consumed db.now) db.otps
          (λ x k l. ground arith),
    )
  ]

  abbrev new_row : PhoneOtpCode
  new_row = code_row db.now db.next_id p code_hash

  with_code-Agrees :
      IsMetered db → All (Agrees (with_code p code_hash db).otps) (with_code p code_hash db).otps
  with_code-Agrees h = (
    (
      λ _. refl,
      marked-All (λ o. o.id ≡ db.next_id → o.attempts ≡ 0) (λ x k. k)
          (All-map (λ o. o.id < db.next_id) (λ o. o.id ≡ db.next_id → o.attempts ≡ 0) db.otps
            (λ o lt e. absurd (omega arith)) h.below),
    ),
    marked-All (Agrees (with_code p code_hash db).otps) (λ x k. k)
        (All-map (λ o. (o.id < db.next_id) × Agrees db.otps o)
          (Agrees (with_code p code_hash db).otps) db.otps
          (λ x k. (
            λ e. absurd (ground (arith, k.0)),
            marked-All (λ o. o.id ≡ x.id → o.attempts ≡ x.attempts) (λ o l. l) k.1,
          ))
          (All-both (λ o. o.id < db.next_id) (Agrees db.otps) db.otps h.below h.agree)),
  )

  pub with_code-IsMetered :
      IsMetered db
      → count_if (is_of_hour db.now p) db.otps < max_per_hour
      → IsMetered (with_code p code_hash db)
  with_code-IsMetered h room = record {
    below = (
      omega arith,
      marked-All (λ o. o.id < db.next_id + 1) (λ x k. k)
          (All-map (λ o. o.id < db.next_id) (λ o. o.id < db.next_id + 1) db.otps
            (λ o lt. omega arith) h.below),
    );
    agree = with_code-Agrees h;
    guesses = (omega arith, marked-All (λ o. o.attempts ≤ max_attempts) (λ x k. k) h.guesses);
    outstanding = λ q. with_code-outstanding q (h.outstanding q);
    hourly = λ q.
        let kept =
          count_if-update_where (is_of_hour db.now q) (is_outstanding p) (consumed db.now) db.otps
            (λ x k l. l) in
        elim (Bool-cases (str_eq q p)) [
          | inl same ↦
              let e : q ≡ p = (eq_iff q p).0 same in
              let room_q : count_if (is_of_hour db.now q) db.otps < max_per_hour = rw e room in
              ground (arith, kept, room_q)
          | inr other ↦ ground (arith, kept, h.hourly q)
        ];
  }

module _ (review : Review) (encrypt : String → String)
    (deliver : String → String → Language → OtpPurpose → Bool) (code p : String)
    (lang : Option Language) (purpose : OtpPurpose) (db : AuthDb) where
  -- A request writes a code if the budget has room for it, and else nothing.
  pub data IsRequest : Result AuthFailure Sent × AuthDb → Type 0 where
    idle : (result : Result AuthFailure Sent) → IsRequest (result, db)
    written :
        (result : Result AuthFailure Sent)
        → count_if (is_of_hour db.now p) db.otps < max_per_hour
        → cooldown db.now (newest (λ o. str_eq p o.phone) db.otps) ≡ none
        → IsRequest (result, with_code p (encrypt code) db)

  pub request_code-IsRequest :
      IsRequest (request_code review encrypt deliver code p lang purpose db)
  unfolding request_code
  request_code-IsRequest = elim (Bool-cases (is_review_phone review p)) [
    | inl reviewed ↦ rw reviewed (idle _)
    | inr usual ↦ elim (assert_budget_lem p db) [
      | inr (e, refused) ↦ rw (usual, refused) (idle _)
      | inl (passed, room, late) ↦ elim (Bool-cases (deliver p code (sms_language lang) purpose)) [
        | inl sent ↦
            rw (usual, passed, write_code_lem p (encrypt code) db, sent) (written _ room late)
        | inr unsent ↦
            rw (usual, passed, write_code_lem p (encrypt code) db, unsent) (written _ room late)
      ]
    ]
  ]

  pub request-IsMetered :
      (r : Result AuthFailure Sent × AuthDb) → IsRequest r → IsMetered db → IsMetered r.1
  request-IsMetered _ (idle result) h = h
  request-IsMetered _ (written result room late) h = with_code-IsMetered p (encrypt code) db h room
