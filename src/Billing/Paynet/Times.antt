-- ===== src/Billing/Paynet/Times.antt =====
-- `fromPaynetTime` (billing/providers/paynet/paynet.provider.ts): the two formats of a time.
use qayoda_backend.Base.{
  ℕ, zero, suc, ◌+◌, ◌-◌, ◌*◌, ◌/◌, ◌%◌, Bool, ◌&&◌, ◌||◌, not, Option, none, some, List, [], ◌∷◌,
  ltb, ◌==◌, if◌then◌else◌, ℤ, sub_ℕ,
}
use qayoda_backend.Base.Text.{codes, is_digit}
use qayoda_backend.Billing.Json.{Value, text}

infixl 5 ◌>>=◌
abbrev ◌>>=◌ : {A B : Type 0} → Option A → (A → Option B) → Option B
none >>= f = none
some a >>= f = f a

-- `\d{n}`, read on from a value: the value and the rest.
abbrev number_group : ℕ → ℕ → List ℕ → Option (ℕ × List ℕ)
number_group zero acc cs = some (acc, cs)
number_group (suc n) acc [] = none
number_group (suc n) acc (c ∷ cs) =
    let rest = number_group n (acc * 10 + (c - b'0')) cs in if is_digit c then rest else none

abbrev literal : ℕ → List ℕ → Option (List ℕ)
literal k [] = none
literal k (c ∷ cs) = if c == k then some cs else none

-- Two numbers of a date, each with the character that follows it.
abbrev number_then : ℕ → ℕ → List ℕ → Option (ℕ × List ℕ)
number_then n sep cs = do (v, rest) ← number_group n 0 cs; after ← literal sep rest; some (v, after)

pub record Fields : Type 0 where
  pub year : ℕ
  pub month : ℕ
  pub day : ℕ
  pub hour : ℕ
  pub minute : ℕ
  pub second : ℕ

abbrev when_at_end : Fields → List ℕ → Option Fields
when_at_end f [] = some f
when_at_end f (c ∷ cs) = none

-- `(\d{2}):(\d{2}):(\d{2})$`
abbrev clock_of : ℕ → ℕ → ℕ → List ℕ → Option Fields
clock_of y mo d cs = do
  (h, r) ← number_then 2 b':' cs
  (mi, q) ← number_then 2 b':' r
  (se, p) ← number_group 2 0 q
  when_at_end (record { year = y; month = mo; day = d; hour = h; minute = mi; second = se }) p

-- `ISO_TIME_RE`
abbrev iso_fields : List ℕ → Option Fields
iso_fields cs = do
  (y, r) ← number_then 4 b'-' cs
  (mo, q) ← number_then 2 b'-' r
  (d, p) ← number_then 2 32 q
  clock_of y mo d p

-- `RU_TIME_RE`
abbrev ru_fields : List ℕ → Option Fields
ru_fields cs = do
  (d, r) ← number_then 2 b'.' cs
  (mo, q) ← number_then 2 b'.' r
  (y, p) ← number_then 4 32 q
  clock_of y mo d p

abbrev is_leap : ℕ → Bool
is_leap y = y % 4 == 0 && not (y % 100 == 0) || y % 400 == 0

-- The days of a year before a month, counted from 0.
abbrev days_before_month : Bool → ℕ → ℕ
days_before_month leap zero = 0
days_before_month leap (suc zero) = 31
days_before_month leap (suc (suc m)) =
    (if leap then 1 else 0)
    + (if m == 0
        then 59
        else if m == 1
        then 90
        else if m == 2
        then 120
        else if m == 3
        then 151
        else if m == 4
        then 181
        else if m == 5
        then 212
        else if m == 6
        then 243
        else if m == 7
        then 273
        else if m == 8
        then 304
        else 334)

-- The days from the first day of the year 0 to the first day of a year that is not 0.
abbrev days_before_year : ℕ → ℕ
days_before_year y = 365 * y + (y - 1) / 4 - (y - 1) / 100 + (y - 1) / 400 + 1

-- The years 0 to 99 of `Date.UTC` are those of the twentieth century.
abbrev full_year : ℕ → ℕ
full_year y = if ltb y 100 then 1900 + y else y

-- `Date.UTC`, in milliseconds from the day before the year 0: months, days and hours run over.
abbrev utc_from_zero : Fields → ℕ
utc_from_zero f =
    let months = full_year f.year * 12 + f.month - 1 in
    let y = months / 12 in
    let days = days_before_year y + days_before_month (is_leap y) (months % 12) + f.day in
    (((days * 24 + f.hour) * 60 + f.minute) * 60 + f.second) * 1000

-- The first of January 1970 on that count.
abbrev epoch_from_zero : ℕ
epoch_from_zero =
    utc_from_zero record { year = 1970; month = 1; day = 1; hour = 0; minute = 0; second = 0 }

-- `TZ_OFFSET_MS`
abbrev tz_offset_ms : ℕ
tz_offset_ms = 5 * 3600000

unfoldable pub fields_of : List ℕ → Option Fields
fields_of cs = elim (iso_fields cs) [ some f ↦ some f | none ↦ ru_fields cs ]

-- The moment of a text in one of the formats; every such moment is a valid `Date`.
unfoldable pub from_paynet_time : Value → Option ℤ
unfolding fields_of
from_paynet_time (text s) = elim (fields_of (codes s)) [
  | none ↦ none
  | some f ↦ some (sub_ℕ (utc_from_zero f) (epoch_from_zero + tz_offset_ms))
]
from_paynet_time _ = none
