-- ===== src/Auth/Codes/Tried.antt =====
-- A code that is tried (auth/services/phone-auth.service.ts).
use qayoda_backend.Base.{
  ◌≤◌, ◌<◌, ◌≡◌, refl, Bool, true, false, not, ◌&&◌, String, List, [], ◌∷◌, arith, All, ◌==◌, ltb,
  leb, is_some, is_text, count_if, count_if-update_where, update_where, none, some, Bool-cases,
  Option-cases, inl, inr,
}
use qayoda_backend.Base.Actions.{Result, ok, err}
use qayoda_backend.Auth.Types.{PhoneOtpCode, max_attempts}
use qayoda_backend.Auth.Store.{AuthDb, AuthFailure}
use qayoda_backend.Auth.Otp.{
  Review, is_outstanding, consumed, newest, one_attempt, claim_code, wrong_code, outstanding_code,
  try_code, consume_code, is_review_phone,
}

-- The row that is found passes the test, and what holds of all rows holds of it.
pub newest-All :
    (P : PhoneOtpCode → Type 0) (t : PhoneOtpCode → Bool) (xs : List PhoneOtpCode)
    (x : PhoneOtpCode)
    → newest t xs ≡ some x
    → All P xs
    → P x × (t x ≡ true)
unfolding newest
newest-All P t [] x e h = absurd (cc e)
newest-All P t (y ∷ ys) x e h = elim (Bool-cases (t y)) [
  | inr miss ↦ newest-All P t ys x (rw miss at e) h.1
  | inl hit ↦ elim (Option-cases (newest t ys)) [
    | inl last ↦ let same : y ≡ x = cc (rw (hit, last, newest) at e) in rw (← same) (h.0, hit)
    | inr (z, more) ↦ elim (Bool-cases (leb z.created_at y.created_at)) [
      | inl later ↦
          let same : y ≡ x = cc (rw (hit, more, newest, later) at e) in rw (← same) (h.0, hit)
      | inr earlier ↦
          let same : z ≡ x = cc (rw (hit, more, newest, earlier) at e) in
          rw (← same) (newest-All P t ys z more h.1)
    ]
  ]
]

pub newest-none :
    (t : PhoneOtpCode → Bool) (xs : List PhoneOtpCode) → count_if t xs ≡ 0 → newest t xs ≡ none
unfolding newest
newest-none t [] h = refl
newest-none t (y ∷ ys) h = ground (arith, newest-none t ys)

-- An update that reaches the row that is found, and lets no row that it changes pass, leaves fewer
-- rows that pass.
pub newest-fewer :
    (t s : PhoneOtpCode → Bool) (f : PhoneOtpCode → PhoneOtpCode) (xs : List PhoneOtpCode)
    (x : PhoneOtpCode)
    → ((y : PhoneOtpCode) → s y ≡ true → t (f y) ≡ false)
    → s x ≡ true
    → newest t xs ≡ some x
    → count_if t (update_where s f xs) < count_if t xs
unfolding newest
newest-fewer t s f [] x gone hit e = absurd (cc e)
newest-fewer t s f (y ∷ ys) x gone hit e =
    let rest = count_if-update_where t s f ys (λ z k l. absurd (cc (rw (gone z k) at l))) in
    elim (Bool-cases (t y)) [
      | inr miss ↦ ground (arith, newest-fewer t s f ys x gone hit (rw miss at e), gone y)
      | inl pass ↦ elim (Option-cases (newest t ys)) [
        | inl last ↦
            let same : y ≡ x = cc (rw (pass, last, newest) at e) in
            let reached : s y ≡ true = rw same hit in ground (arith, rest, gone y reached)
        | inr (z, more) ↦ elim (Bool-cases (leb z.created_at y.created_at)) [
          | inl later ↦
              let same : y ≡ x = cc (rw (pass, more, newest, later) at e) in
              let reached : s y ≡ true = rw same hit in ground (arith, rest, gone y reached)
          | inr earlier ↦
              let same : z ≡ x = cc (rw (pass, more, newest, earlier) at e) in
              ground (arith, newest-fewer t s f ys z gone (rw same hit) more, gone y)
        ]
      ]
    ]

abbrev pub is_row : PhoneOtpCode → PhoneOtpCode → Bool
is_row row o = o.id == row.id && not (is_some o.consumed_at)

-- The table after a wrong guess, and after the code was claimed.
abbrev pub guessed : PhoneOtpCode → AuthDb → AuthDb
guessed row db = record db { otps = update_where (λ o. o.id == row.id) one_attempt db.otps }

abbrev pub spent : PhoneOtpCode → AuthDb → AuthDb
spent row db = record db { otps = update_where (is_row row) (consumed db.now) db.otps }

module _ (review : Review) (compare : String → String → Bool) (p code : String) (db : AuthDb) where
  -- The row that may be tried.
  pub record IsOpen (row : PhoneOtpCode) : Type 0 where
    pub last : newest (is_outstanding p) db.otps ≡ some row
    pub in_time : db.now ≤ row.expires_at
    pub room : row.attempts < max_attempts

  -- What a try does.
  pub data IsTry : Result AuthFailure (Unit {0}) × AuthDb → Type 0 where
    reviewed : is_review_phone review p && is_text code review.code ≡ true → IsTry (ok tt, db)
    refused : (e : AuthFailure) → IsTry (err e, db)
    wrong :
        (row : PhoneOtpCode) (e : AuthFailure)
        → IsOpen row
        → compare code row.code_hash ≡ false
        → IsTry (err e, guessed row db)
    accepted :
        (row : PhoneOtpCode)
        → IsOpen row
        → compare code row.code_hash ≡ true
        → IsTry (ok tt, spent row db)
    lost : (row : PhoneOtpCode) (e : AuthFailure) → IsOpen row → IsTry (err e, spent row db)

  tried : (row : PhoneOtpCode) → IsOpen row → IsTry (try_code review compare code row db)
  unfolding try_code claim_code wrong_code
  tried row is_open = elim (Bool-cases (compare code row.code_hash)) [
    | inr no_match ↦ rw no_match (wrong row _ is_open no_match)
    | inl match ↦ elim (Bool-cases (count_if (is_row row) db.otps == 1)) [
      | inl one ↦ rw (match, one) (accepted row is_open match)
      | inr other ↦ rw (match, other) (lost row _ is_open)
    ]
  ]

  pub consume_code-IsTry : IsTry (consume_code review compare p code db)
  unfolding consume_code outstanding_code
  consume_code-IsTry = elim (Bool-cases (is_review_phone review p && is_text code review.code)) [
    | inl bypass ↦ rw bypass (reviewed bypass)
    | inr usual ↦ elim (Option-cases (newest (is_outstanding p) db.otps)) [
      | inl missing ↦ rw (usual, missing) (refused _)
      | inr (row, last) ↦ elim (Bool-cases (ltb row.expires_at db.now)) [
        | inl late ↦ rw (usual, last, late) (refused _)
        | inr in_time ↦ elim (Bool-cases (leb max_attempts row.attempts)) [
          | inl locked ↦ rw (usual, last, in_time, locked) (refused _)
          | inr room ↦
              rw (usual, last, in_time, room)
                (tried row (record { last = last; in_time = ground arith; room = ground arith }))
        ]
      ]
    ]
  ]
