-- ===== src/Billing/Json.antt =====
-- The values of a webhook's JSON body, and how billing/providers/ read them.
-- The numbers of a body are whole, and of an object or an array nothing is read here.
use Prim.Native.String.{◌++◌}
use qayoda_backend.Base.{
  ℕ, zero, suc, ◌/◌, ◌%◌, Bool, true, false, Option, none, some, String, ltb, if◌then◌else◌, ℤ, pos,
  negsuc, sub_ℕ, ◌==◌, List, [], ◌∷◌,
}
use qayoda_backend.Base.Text.{codes, digits_from, trim}

pub data Value : Type 0 where
  undefined null object : Value
  boolean : Bool → Value
  number : ℤ → Value
  text : String → Value

abbrev pub is_undefined : Value → Bool
is_undefined undefined = true
is_undefined _ = false

abbrev digit_text : ℕ → String
digit_text zero = "0"
digit_text (suc zero) = "1"
digit_text (suc (suc zero)) = "2"
digit_text (suc (suc (suc zero))) = "3"
digit_text (suc (suc (suc (suc zero)))) = "4"
digit_text (suc (suc (suc (suc (suc zero))))) = "5"
digit_text (suc (suc (suc (suc (suc (suc zero)))))) = "6"
digit_text (suc (suc (suc (suc (suc (suc (suc zero))))))) = "7"
digit_text (suc (suc (suc (suc (suc (suc (suc (suc zero)))))))) = "8"
digit_text _ = "9"

-- Each round takes one digit off, so `n + 1` rounds are enough.
show_rounds : ℕ → ℕ → String
show_rounds zero n = ""
show_rounds (suc f) n =
    let front = show_rounds f (n / 10) in
    if ltb n 10 then digit_text n else front ++ digit_text (n % 10)

-- `String` of a number.
unfoldable pub show_ℕ : ℕ → String
unfolding show_rounds
show_ℕ n = show_rounds (suc n) n

unfoldable pub show_ℤ : ℤ → String
unfolding show_ℕ
show_ℤ (pos n) = show_ℕ n
show_ℤ (negsuc n) = "-" ++ show_ℕ (suc n)

abbrev signed : Bool → Option ℕ → Option ℤ
signed minus none = none
signed minus (some n) = some (if minus then sub_ℕ 0 n else pos n)

-- A sign and its digits.
abbrev after_sign : Bool → List ℕ → Option ℤ
after_sign minus [] = none
after_sign minus (c ∷ cs) = signed minus (digits_from 0 (c ∷ cs))

-- `Number` of a text without the spaces around it.
abbrev number_of_trimmed : List ℕ → Option ℤ
number_of_trimmed [] = some (pos 0)
number_of_trimmed (c ∷ cs) =
    if c == b'-'
    then after_sign true cs
    else if c == b'+'
    then after_sign false cs
    else after_sign false (c ∷ cs)

-- `Number`; `none` is NaN.
unfoldable pub number_of : Value → Option ℤ
unfolding digits_from
number_of undefined = none
number_of object = none
number_of null = some (pos 0)
number_of (boolean b) = some (pos (if b then 1 else 0))
number_of (number n) = some n
number_of (text s) = number_of_trimmed (trim (codes s))

-- `String`
unfoldable pub string_of : Value → String
unfolding show_ℤ
string_of undefined = "undefined"
string_of null = "null"
string_of object = "[object Object]"
string_of (boolean b) = if b then "true" else "false"
string_of (number n) = show_ℤ n
string_of (text s) = s
