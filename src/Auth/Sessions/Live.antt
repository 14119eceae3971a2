-- ===== src/Auth/Sessions/Live.antt =====
-- The live tokens of a session's family, and what a revocation does to them
-- (auth/services/token.service.ts).
use qayoda_backend.Base.{
  ℕ, ◌+◌, ◌≤◌, ◌≡◌, refl, Bool, true, ◌&&◌, String, List, [], ◌∷◌, arith, ◌==◌, str_eq, is_some,
  update_where, count_if, All, ==_iff, eq_iff, sym, Bool-cases, select, inl, inr,
}
use qayoda_backend.Auth.Types.{RefreshToken}
use qayoda_backend.Auth.Tokens.{is_live, revoked}

abbrev pub in_family : String → RefreshToken → Bool
in_family f t = str_eq f t.family_id && is_live t

abbrev pub live_in : String → List RefreshToken → ℕ
live_in f = count_if (in_family f)

-- The rows after `update({ …, revokedAt: IsNull() }, { revokedAt: now })`.
abbrev pub revoke_rows : (RefreshToken → Bool) → ℕ → List RefreshToken → List RefreshToken
revoke_rows t now = update_where (λ r. t r && is_live r) (revoked now)

pub live_in-revoke_rows :
    (t : RefreshToken → Bool) (now : ℕ) (f : String) (rows : List RefreshToken)
    → live_in f (revoke_rows t now rows) + count_if (λ r. in_family f r && t r) rows
      ≡ live_in f rows
live_in-revoke_rows t now f [] = refl
live_in-revoke_rows t now f (x ∷ xs) = ground (arith, live_in-revoke_rows t now f xs)

-- A revocation makes no token live.
pub live_in-revoked :
    (t : RefreshToken → Bool) (now : ℕ) (f : String) (rows : List RefreshToken)
    → live_in f (revoke_rows t now rows) ≤ live_in f rows
live_in-revoked t now f rows = ground (arith, live_in-revoke_rows t now f rows)

-- Nor does a deletion.
pub live_in-select :
    (t : RefreshToken → Bool) (f : String) (rows : List RefreshToken)
    → live_in f (select t rows) ≤ live_in f rows
live_in-select t f [] = omega arith
live_in-select t f (x ∷ xs) = ground (arith, live_in-select t f xs)

-- The rows of one id are all of one family.
abbrev pub IsOfFamily : ℕ → String → List RefreshToken → Type 0
IsOfFamily id family = All (λ t. t.id ≡ id → t.family_id ≡ family)

-- Of that family, the live rows with the id are counted as what they are.
count-claimed :
    (id : ℕ) (family : String) (rows : List RefreshToken)
    → IsOfFamily id family rows
    → count_if (λ r. in_family family r && (r.id == id)) rows
      ≡ count_if (λ t. (t.id == id) && is_live t) rows
count-claimed id family [] h = refl
count-claimed id family (x ∷ xs) h = elim (Bool-cases (x.id == id)) [
  | inl hit ↦
      let same : x.family_id ≡ family = h.0 ((==_iff x.id id).0 hit) in
      ground (arith, count-claimed id family xs h.1, (eq_iff family x.family_id).1 (sym same))
  | inr miss ↦ ground (arith, count-claimed id family xs h.1)
]

-- A claim that hits one row ends one live token of its family.
pub live_in-claimed :
    (id : ℕ) (family : String) (now : ℕ) (rows : List RefreshToken)
    → IsOfFamily id family rows
    → count_if (λ t. (t.id == id) && is_live t) rows ≡ 1
    → live_in family (revoke_rows (λ t. t.id == id) now rows) + 1 ≡ live_in family rows
live_in-claimed id family now rows h one =
    ground
      (arith, live_in-revoke_rows (λ t. t.id == id) now family rows, count-claimed id family rows h)

-- Every row that the test finds is revoked.
pub revoke_rows-revoked :
    (t : RefreshToken → Bool) (now : ℕ) (rows : List RefreshToken)
    → ((x : RefreshToken) → t (revoked now x) ≡ t x)
    → All (λ x. t x ≡ true → is_some x.revoked_at ≡ true) (revoke_rows t now rows)
revoke_rows-revoked t now [] h = tt
revoke_rows-revoked t now (x ∷ xs) h = (ground (arith, h x), revoke_rows-revoked t now xs h)

-- A family whose rows are revoked has no live token.
pub live_in-revoked_family :
    (f : String) (rows : List RefreshToken)
    → All (λ x. str_eq f x.family_id ≡ true → is_some x.revoked_at ≡ true) rows
    → live_in f rows ≡ 0
live_in-revoked_family f [] h = refl
live_in-revoked_family f (x ∷ xs) h = ground (arith, live_in-revoked_family f xs h.1, h.0)
