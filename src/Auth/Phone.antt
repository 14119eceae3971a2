-- ===== src/Auth/Phone.antt =====
-- EskizService.normalizePhone (notifications/eskiz.service.ts): a phone number as its twelve
-- digits.
pub mod Normal
use Prim.Native.Char.{code}
use qayoda_backend.Base.{
  ℕ, ◌+◌, Bool, false, ◌&&◌, ◌||◌, Option, none, some, String, ◌==◌, if◌then◌else◌,
}
use qayoda_backend.Base.Text.{is_digit}

-- `input.replace(/\D/g, '')`
unfoldable pub digits_of : String → String
digits_of String.[] = ""
digits_of (String.◌∷◌ c s) =
    let rest = digits_of s in if is_digit (code c) then String.◌∷◌ c rest else rest

unfoldable pub text_length : String → ℕ
text_length String.[] = 0
text_length (String.◌∷◌ c s) = 1 + text_length s

-- `/^(20|33|50|55|77|88|9\d)/`, of digits.
unfoldable pub is_in_service : String → Bool
is_in_service (String.◌∷◌ a (String.◌∷◌ b s)) =
    code a == b'9'
    || code a == b'2' && code b == b'0'
    || code a == b'3' && code b == b'3'
    || code a == b'5' && (code b == b'0' || code b == b'5')
    || code a == b'7' && code b == b'7'
    || code a == b'8' && code b == b'8'
is_in_service _ = false

-- `digits.startsWith('998') ? digits.slice(3) : null`
unfoldable pub without_country : String → Option String
without_country (String.◌∷◌ a (String.◌∷◌ b (String.◌∷◌ c s))) =
    if code a == b'9' && code b == b'9' && code c == b'8' then some s else none
without_country _ = none

unfoldable pub local_part : String → Option String
local_part digits =
    if text_length digits == 9
    then some digits
    else if text_length digits == 12
    then without_country digits
    else none

-- `998${local}`
abbrev pub with_country : String → String
with_country local = String.◌∷◌ "9" (String.◌∷◌ "9" (String.◌∷◌ "8" local))

-- `none` is PHONE_INVALID.
unfoldable pub normalize_phone : String → Option String
normalize_phone input = elim (local_part (digits_of input)) [
  | none ↦ none
  | some local ↦
      if text_length local == 9 && is_in_service local then some (with_country local) else none
]
