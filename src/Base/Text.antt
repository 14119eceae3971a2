-- ===== src/Base/Text.antt =====
-- Reading texts: the regular expressions of the sources, and numbers and money in decimal digits.
use Prim.Native.Nat.{ℕ, zero, suc, ◌+◌, ◌-◌, ◌*◌}
use Prim.Native.Char.{code}
use Prim.Native.String.{String}
use mathlib.Core.Bool.{Bool, true, false, ◌&&◌, ◌||◌}
use mathlib.Core.Option.{Option, none, some}
use mathlib.Core.List.{List, [], ◌∷◌}
use qayoda_backend.Base.Tests.{leb, ◌==◌, if◌then◌else◌, str_eq}
use qayoda_backend.Base.Lists.{length}

-- The code points of a text.
abbrev pub codes : String → List ℕ
codes String.[] = []
codes (String.◌∷◌ c s) = code c ∷ codes s

infixl 5 ◌>>=◌
abbrev ◌>>=◌ : {A B : Type 0} → Option A → (A → Option B) → Option B
none >>= f = none
some a >>= f = f a

abbrev pub is_digit : ℕ → Bool
is_digit c = leb b'0' c && leb c b'9'

-- A hexadecimal digit, of either case.
unfoldable pub hex_value : ℕ → Option ℕ
hex_value c =
    if is_digit c
    then some (c - b'0')
    else if leb b'a' c && leb c b'f'
    then some (c - b'a' + 10)
    else if leb b'A' c && leb c b'F'
    then some (c - b'A' + 10)
    else none

-- `[0-9a-f]{n}`, read on from a value: the value and the rest.
unfoldable pub hex_group : ℕ → ℕ → List ℕ → Option (ℕ × List ℕ)
hex_group zero acc cs = some (acc, cs)
hex_group (suc n) acc [] = none
hex_group (suc n) acc (c ∷ cs) = elim (hex_value c) [
  | none ↦ none
  | some d ↦ hex_group n (acc * 16 + d) cs
]

-- The same after a dash.
unfoldable pub dash_group : ℕ → ℕ → List ℕ → Option (ℕ × List ℕ)
unfolding hex_group
dash_group n acc [] = none
dash_group n acc (c ∷ cs) = if c == b'-' then hex_group n acc cs else none

abbrev at_end : ℕ → List ℕ → Option ℕ
at_end v [] = some v
at_end v (c ∷ cs) = none

-- The uuid that a text writes, if it matches `UUID_RE`.
unfoldable pub uuid_of_codes : List ℕ → Option ℕ
unfolding hex_value hex_group dash_group
uuid_of_codes cs = do
  (a, r) ← hex_group 8 0 cs
  (b, q) ← dash_group 4 a r
  (c, p) ← dash_group 4 b q
  (d, o) ← dash_group 4 c p
  (e, n) ← dash_group 12 d o
  at_end e n

unfoldable pub uuid_of : String → Option ℕ
unfolding uuid_of_codes
uuid_of s = uuid_of_codes (codes s)

-- The number that a run of digits writes, read on from a value.
unfoldable pub digits_from : ℕ → List ℕ → Option ℕ
digits_from acc [] = some acc
digits_from acc (c ∷ cs) =
    let rest = digits_from (acc * 10 + (c - b'0')) cs in if is_digit c then rest else none

abbrev is_space : ℕ → Bool
is_space c = c == 32 || leb 9 c && leb c 13 || c == 160

abbrev trim_left : List ℕ → List ℕ
trim_left [] = []
trim_left (c ∷ cs) = let rest = trim_left cs in if is_space c then rest else c ∷ cs

abbrev trim_right : List ℕ → List ℕ
trim_right [] = []
trim_right (c ∷ cs) =
    let rest = trim_right cs in
    elim rest [ [] ↦ if is_space c then [] else c ∷ [] | d ∷ ds ↦ c ∷ d ∷ ds ]

-- `String.trim`
abbrev pub trim : List ℕ → List ℕ
trim cs = trim_right (trim_left cs)

-- `Number` of a text that is blank or a run of digits; `none` is NaN.
unfoldable pub number_of_codes : List ℕ → Option ℕ
unfolding digits_from
number_of_codes cs = digits_from 0 (trim cs)

-- `/^[1-9]\d{0,n}$/`: the number that it writes.
unfoldable pub nonzero_number : ℕ → List ℕ → Option ℕ
unfolding digits_from
nonzero_number n [] = none
nonzero_number n (c ∷ cs) =
    if leb b'1' c && leb c b'9' && leb (length cs) n then digits_from 0 (c ∷ cs) else none

-- The tiyin that the digits after the point add, rounded half up at the third.
abbrev tiyin_of_fraction : ℕ → List ℕ → Option ℕ
tiyin_of_fraction t [] = some t
tiyin_of_fraction t (a ∷ []) = if is_digit a then some (t + (a - b'0') * 10) else none
tiyin_of_fraction t (a ∷ b ∷ []) =
    if is_digit a && is_digit b then some (t + (a - b'0') * 10 + (b - b'0')) else none
tiyin_of_fraction t (a ∷ b ∷ c ∷ _) =
    if is_digit a && is_digit b && is_digit c
    then some (t + (a - b'0') * 10 + (b - b'0') + (if leb b'5' c then 1 else 0))
    else none

abbrev tiyin_from : ℕ → List ℕ → Option ℕ
tiyin_from acc [] = some (acc * 100)
tiyin_from acc (c ∷ cs) =
    let rest = tiyin_from (acc * 10 + (c - b'0')) cs in
    if is_digit c then rest else if c == b'.' then tiyin_of_fraction (acc * 100) cs else none

-- `toTiyin` of a decimal text, `Math.round(Number(v) * 100)`; `none` is NaN.
unfoldable pub tiyin_of_text : String → Option ℕ
tiyin_of_text s = tiyin_from 0 (trim (codes s))

abbrev trim_start_text : String → String
trim_start_text String.[] = ""
trim_start_text (String.◌∷◌ c s) =
    let rest = trim_start_text s in if is_space (code c) then rest else String.◌∷◌ c s

abbrev trim_end_text : String → String
trim_end_text String.[] = ""
trim_end_text (String.◌∷◌ c s) =
    let rest = trim_end_text s in
    if str_eq rest "" && is_space (code c) then "" else String.◌∷◌ c rest

-- `String.trim` as a text.
abbrev pub trim_text : String → String
trim_text s = trim_end_text (trim_start_text s)

-- What follows a prefix, if the text begins with it.
abbrev pub after_prefix : List ℕ → List ℕ → Option (List ℕ)
after_prefix [] cs = some cs
after_prefix (p ∷ ps) [] = none
after_prefix (p ∷ ps) (c ∷ cs) = let rest = after_prefix ps cs in if c == p then rest else none

-- `timingSafeEqual` on two buffers, with the test of their lengths.
abbrev pub same_bytes : List ℕ → List ℕ → Bool
same_bytes [] [] = true
same_bytes (a ∷ as') (b ∷ bs) = a == b && same_bytes as' bs
same_bytes _ _ = false

abbrev put_first : ℕ → List (List ℕ) → List (List ℕ)
put_first c [] = (c ∷ []) ∷ []
put_first c (p ∷ ps) = (c ∷ p) ∷ ps

-- `String.split` at a character.
abbrev pub split_at : ℕ → List ℕ → List (List ℕ)
split_at sep [] = [] ∷ []
split_at sep (c ∷ cs) =
    let rest = split_at sep cs in if c == sep then [] ∷ rest else put_first c rest

abbrev pub is_blank : List ℕ → Bool
is_blank [] = true
is_blank _ = false
