-- ===== src/Auth/Phone/Normal.antt =====
-- A normalised number is its own normal form (notifications/eskiz.service.ts).
use Prim.Native.Char.{code}
use qayoda_backend.Base.{
  ◌≡◌, refl, Bool, true, ◌&&◌, some, String, arith, ◌==◌, Bool-cases, Option-cases, inl, inr,
  ==_iff,
}
use qayoda_backend.Base.Text.{is_digit}
use qayoda_backend.Auth.Phone.{
  digits_of, text_length, is_in_service, without_country, local_part, with_country, normalize_phone,
}

abbrev all_digits : String → Bool
all_digits String.[] = true
all_digits (String.◌∷◌ c s) = is_digit (code c) && all_digits s

digits_of-all_digits : (s : String) → all_digits (digits_of s) ≡ true
unfolding digits_of
digits_of-all_digits String.[] = refl
digits_of-all_digits (String.◌∷◌ c s) = elim (Bool-cases (is_digit (code c))) [
  | inl digit ↦ rw (digit, digit, digits_of-all_digits s) refl
  | inr other ↦ rw other (digits_of-all_digits s)
]

all_digits-digits_of : (s : String) → all_digits s ≡ true → digits_of s ≡ s
unfolding digits_of
all_digits-digits_of String.[] h = refl
all_digits-digits_of (String.◌∷◌ c s) h = elim (Bool-cases (is_digit (code c))) [
  | inl digit ↦ rw (digit, all_digits-digits_of s (rw digit at h)) refl
  | inr other ↦ absurd (cc (rw other at h))
]

without_country-all_digits :
    (s local : String)
    → all_digits s ≡ true
    → without_country s ≡ some local
    → all_digits local ≡ true
unfolding without_country
without_country-all_digits String.[] local h e = absurd (cc e)
without_country-all_digits (String.◌∷◌ a String.[]) local h e = absurd (cc e)
without_country-all_digits (String.◌∷◌ a (String.◌∷◌ b String.[])) local h e = absurd (cc e)
without_country-all_digits (String.◌∷◌ a (String.◌∷◌ b (String.◌∷◌ c s))) local h e =
    ground (arith, e, h)

local_part-all_digits :
    (s local : String) → all_digits s ≡ true → local_part s ≡ some local → all_digits local ≡ true
unfolding local_part
local_part-all_digits s local h e = elim (Bool-cases (text_length s == 9)) [
  | inl nine ↦ let same : s ≡ local = cc (rw nine at e) in rw (← same) h
  | inr other ↦ elim (Bool-cases (text_length s == 12)) [
    | inl twelve ↦ without_country-all_digits s local h (rw (other, twelve) at e)
    | inr bad ↦ absurd (cc (rw (other, bad) at e))
  ]
]

local_part-with_country :
    (local : String)
    → text_length (with_country local) ≡ 12
    → local_part (with_country local) ≡ some local
unfolding local_part without_country
local_part-with_country local long = rw long refl

-- The number with its country's digits is read as itself.
with_country-again :
    (local : String)
    → all_digits local ≡ true
    → text_length local == 9 && is_in_service local ≡ true
    → (text_length (with_country local) ≡ 12)
      × (normalize_phone (with_country local) ≡ some (with_country local))
unfolding normalize_phone text_length
with_country-again local digits valid =
    let nine : text_length local == 9 ≡ true = ground arith in
    let long : text_length (with_country local) ≡ 12 =
      let l : text_length local ≡ 9 = (==_iff (text_length local) 9).0 nine in rw l refl in
    let same : digits_of (with_country local) ≡ with_country local =
      all_digits-digits_of (with_country local) digits in
    let part = local_part-with_country local long in
    (long, rw (same, normalize_phone, part, normalize_phone, valid) refl)

-- A number that was normalised has twelve digits, and normalising it again gives the same number.
pub normalize_phone-again :
    (input p : String)
    → normalize_phone input ≡ some p
    → (text_length p ≡ 12) × (normalize_phone p ≡ some p)
unfolding normalize_phone
normalize_phone-again input p e = elim (Option-cases (local_part (digits_of input))) [
  | inl bad ↦ absurd (cc (rw (bad, normalize_phone) at e))
  | inr (local, read) ↦
      let digits =
        local_part-all_digits (digits_of input) local (digits_of-all_digits input) read in
      elim (Bool-cases (text_length local == 9 && is_in_service local)) [
        | inr bad ↦ absurd (cc (rw (read, normalize_phone, bad) at e))
        | inl valid ↦
            let same : with_country local ≡ p = cc (rw (read, normalize_phone, valid) at e) in
            rw (← same) (with_country-again local digits valid)
      ]
]
