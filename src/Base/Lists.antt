-- ===== src/Base/Lists.antt =====
-- Lists measured by native numbers, and tables as lists of rows: search, selection and update.
use Prim.Native.Nat.{ℕ, zero, suc, ◌+◌, ◌≤◌}
use mathlib.Core.Path.{◌≡◌, refl}
use mathlib.Core.Bool.{Bool, true, false, ◌||◌}
use mathlib.Core.Option.{Option, none, some}
use mathlib.Core.List.{List, [], ◌∷◌}
use native.Mathlib.Omega.{arith}
use mathlib.Core.Logic.{inl, inr}
use qayoda_backend.Base.Tests.{if◌then◌else◌, Bool-cases}

module _ {ℓ} {A : Type ℓ} where
  abbrev pub length : List A → ℕ
  length [] = 0
  length (x ∷ xs) = suc (length xs)

  -- The first row that passes the test: `findOne`, `Array.find`.
  abbrev pub find? : (A → Bool) → List A → Option A
  find? t [] = none
  find? t (x ∷ xs) = if t x then some x else find? t xs

  abbrev pub any : (A → Bool) → List A → Bool
  any t [] = false
  any t (x ∷ xs) = t x || any t xs

  abbrev pub select : (A → Bool) → List A → List A
  select t [] = []
  select t (x ∷ xs) = let rest = select t xs in if t x then x ∷ rest else rest

  -- `UPDATE … SET f WHERE t`
  abbrev pub update_where : (A → Bool) → (A → A) → List A → List A
  update_where t f [] = []
  update_where t f (x ∷ xs) = (if t x then f x else x) ∷ update_where t f xs

  abbrev pub count_if : (A → Bool) → List A → ℕ
  count_if t [] = 0
  count_if t (x ∷ xs) = (if t x then 1 else 0) + count_if t xs

  abbrev pub take : ℕ → List A → List A
  take zero xs = []
  take (suc n) [] = []
  take (suc n) (x ∷ xs) = x ∷ take n xs

  abbrev pub drop : ℕ → List A → List A
  drop zero xs = xs
  drop (suc n) [] = []
  drop (suc n) (x ∷ xs) = drop n xs

  -- A row put in place in a sorted list, before its equals; `before` is the order.
  abbrev pub insert_by : (A → A → Bool) → A → List A → List A
  insert_by before a [] = a ∷ []
  insert_by before a (x ∷ xs) = if before a x then a ∷ x ∷ xs else x ∷ insert_by before a xs

  -- `ORDER BY`
  abbrev pub sort_by : (A → A → Bool) → List A → List A
  sort_by before [] = []
  sort_by before (x ∷ xs) = insert_by before x (sort_by before xs)

  -- A predicate holds of every row.
  abbrev pub All {κ} : (A → Type κ) → List A → Type κ
  All P [] = Unit
  All P (x ∷ xs) = P x × All P xs

  -- No row passes the test that `any` finds none of: an update changes nothing.
  pub update_where-none :
      (t : A → Bool) (f : A → A) (xs : List A) → any t xs ≡ false → update_where t f xs ≡ xs
  update_where-none t f [] h = refl
  update_where-none t f (x ∷ xs) h = ground (arith, update_where-none t f xs)

  pub find?-some_test : (t : A → Bool) (xs : List A) (x : A) → find? t xs ≡ some x → t x ≡ true
  find?-some_test t [] x h = ground arith
  find?-some_test t (y ∷ ys) x h = ground (arith, find?-some_test t ys x)

  pub find?-any : (t : A → Bool) (xs : List A) (x : A) → find? t xs ≡ some x → any t xs ≡ true
  find?-any t [] x h = ground arith
  find?-any t (y ∷ ys) x h = ground (arith, find?-any t ys x)

  pub any-find?_none : (t : A → Bool) (xs : List A) → any t xs ≡ false → find? t xs ≡ none
  any-find?_none t [] h = refl
  any-find?_none t (y ∷ ys) h = ground (arith, any-find?_none t ys)

  pub find?-none_any : (t : A → Bool) (xs : List A) → find? t xs ≡ none → any t xs ≡ false
  find?-none_any t [] h = refl
  find?-none_any t (y ∷ ys) h = ground (arith, find?-none_any t ys)

  pub any-count : (t : A → Bool) (xs : List A) → any t xs ≡ false → count_if t xs ≡ 0
  any-count t [] h = refl
  any-count t (y ∷ ys) h = ground (arith, any-count t ys)

  pub any-implies :
      (t s : A → Bool) (xs : List A)
      → ((x : A) → t x ≡ true → s x ≡ true)
      → any s xs ≡ false
      → any t xs ≡ false
  any-implies t s [] h e = refl
  any-implies t s (x ∷ xs) h e = elim (Bool-cases (t x)) [
    | inl hit ↦ ground (arith, h x hit)
    | inr miss ↦ ground (arith, any-implies t s xs h)
  ]

  pub any-updated :
      (t s : A → Bool) (f : A → A) (xs : List A)
      → ((x : A) → s x ≡ true → t (f x) ≡ true)
      → any t xs ≡ true
      → any t (update_where s f xs) ≡ true
  any-updated t s f [] h e = e
  any-updated t s f (x ∷ xs) h e = elim (Bool-cases (t x)) [
    | inl hit ↦ elim (Bool-cases (s x)) [
      | inl change ↦ rw (change, h x change) refl
      | inr keep ↦ rw (keep, hit) refl
    ]
    | inr miss ↦
        let rest = any-updated t s f xs h (rw miss at e) in
        elim (Bool-cases (s x)) [
          | inl change ↦ rw (change, h x change) refl
          | inr keep ↦ rw (keep, miss) rest
        ]
  ]

  -- A row that is found and passes another test is one that passes it.
  pub find?-passes :
      (t s : A → Bool) (xs : List A) (x : A) → find? t xs ≡ some x → s x ≡ true → any s xs ≡ true
  find?-passes t s [] x e h = absurd (cc e)
  find?-passes t s (y ∷ ys) x e h = elim (Bool-cases (t y)) [
    | inl hit ↦
        let same : y ≡ x = cc (rw hit at e) in let pass : s y ≡ true = rw same h in rw pass refl
    | inr miss ↦ ground (arith, find?-passes t s ys x (rw miss at e) h)
  ]

  pub any-find? : (t : A → Bool) (xs : List A) → any t xs ≡ true → (x : A) × (find? t xs ≡ some x)
  any-find? t [] h = absurd (cc h)
  any-find? t (x ∷ xs) h = elim (Bool-cases (t x)) [
    | inl hit ↦ (x, rw hit refl)
    | inr miss ↦ let rest = any-find? t xs (rw miss at h) in (rest.0, rw miss rest.1)
  ]

  pub length-select : (t : A → Bool) (xs : List A) → length (select t xs) ≡ count_if t xs
  length-select t [] = refl
  length-select t (x ∷ xs) = ground (arith, length-select t xs)

  pub count_if-implies :
      (t s : A → Bool) (xs : List A)
      → ((x : A) → t x ≡ true → s x ≡ true)
      → count_if t xs ≤ count_if s xs
  count_if-implies t s [] h = omega arith
  count_if-implies t s (x ∷ xs) h = elim (Bool-cases (t x)) [
    | inl hit ↦ ground (arith, count_if-implies t s xs h, h x hit)
    | inr miss ↦ ground (arith, count_if-implies t s xs h)
  ]

  pub count_if-select : (t s : A → Bool) (xs : List A) → count_if t (select s xs) ≤ count_if t xs
  count_if-select t s [] = omega arith
  count_if-select t s (x ∷ xs) = ground (arith, count_if-select t s xs)

  -- An update that makes no row pass the test.
  pub count_if-update_where :
      (t s : A → Bool) (f : A → A) (xs : List A)
      → ((x : A) → s x ≡ true → t (f x) ≡ true → t x ≡ true)
      → count_if t (update_where s f xs) ≤ count_if t xs
  count_if-update_where t s f [] h = omega arith
  count_if-update_where t s f (x ∷ xs) h = elim (Bool-cases (s x)) [
    | inl hit ↦ elim (Bool-cases (t (f x))) [
      | inl after ↦ ground (arith, count_if-update_where t s f xs h, h x hit after)
      | inr gone ↦ ground (arith, count_if-update_where t s f xs h)
    ]
    | inr miss ↦ ground (arith, count_if-update_where t s f xs h)
  ]

  -- An update that leaves no row that passes the test.
  pub count_if-cleared :
      (t s : A → Bool) (f : A → A) (xs : List A)
      → ((x : A) → s x ≡ true → t (f x) ≡ false)
      → ((x : A) → s x ≡ false → t x ≡ false)
      → count_if t (update_where s f xs) ≡ 0
  count_if-cleared t s f [] h k = refl
  count_if-cleared t s f (x ∷ xs) h k = elim (Bool-cases (s x)) [
    | inl hit ↦ ground (arith, count_if-cleared t s f xs h k, h x hit)
    | inr miss ↦ ground (arith, count_if-cleared t s f xs h k, k x miss)
  ]

  -- An update that keeps the test changes the row that is found.
  pub find?-update_where :
      (t : A → Bool) (f : A → A) (xs : List A) (x : A)
      → ((y : A) → t y ≡ true → t (f y) ≡ true)
      → find? t xs ≡ some x
      → find? t (update_where t f xs) ≡ some (f x)
  find?-update_where t f [] x keeps h = absurd (cc h)
  find?-update_where t f (y ∷ ys) x keeps h = elim (Bool-cases (t y)) [
    | inl hit ↦ let same : y ≡ x = cc (rw hit at h) in rw (hit, keeps y hit, same) refl
    | inr miss ↦ rw (miss, miss) (find?-update_where t f ys x keeps (rw miss at h))
  ]

  -- The same for an update by another test.
  pub find?-updated :
      (t s : A → Bool) (f : A → A) (xs : List A) (x : A)
      → ((y : A) → t (f y) ≡ t y)
      → find? t xs ≡ some x
      → find? t (update_where s f xs) ≡ some (if s x then f x else x)
  find?-updated t s f [] x keeps h = absurd (cc h)
  find?-updated t s f (y ∷ ys) x keeps h = elim (Bool-cases (t y)) [
    | inl hit ↦
        let same : y ≡ x = cc (rw hit at h) in
        elim (Bool-cases (s y)) [
          | inl change ↦
              let test : t (f y) ≡ true = rw (keeps y) hit in
              let there : s x ≡ true = rw (← same) change in rw (change, test, there, same) refl
          | inr keep ↦
              let there : s x ≡ false = rw (← same) keep in rw (keep, hit, there, same) refl
        ]
    | inr miss ↦
        let rest = find?-updated t s f ys x keeps (rw miss at h) in
        elim (Bool-cases (s y)) [
          | inl change ↦ let test : t (f y) ≡ false = rw (keeps y) miss in rw (change, test) rest
          | inr keep ↦ rw (keep, miss) rest
        ]
  ]

pub All-map {ℓ κ μ} :
    {A : Type ℓ} (P : A → Type κ) (Q : A → Type μ) (xs : List A)
    → ((x : A) → P x → Q x)
    → All P xs
    → All Q xs
All-map P Q [] f h = tt
All-map P Q (x ∷ xs) f h = (f x h.0, All-map P Q xs f h.1)

pub All-both {ℓ κ μ} :
    {A : Type ℓ} (P : A → Type κ) (Q : A → Type μ) (xs : List A)
    → All P xs
    → All Q xs
    → All (λ x. P x × Q x) xs
All-both P Q [] h k = tt
All-both P Q (x ∷ xs) h k = ((h.0, k.0), All-both P Q xs h.1 k.1)

-- Every row, changed or not, comes to satisfy `Q`.
pub update_where-All {ℓ κ μ} :
    {A : Type ℓ} (P : A → Type κ) (Q : A → Type μ) (t : A → Bool) (f : A → A) (xs : List A)
    → ((x : A) → P x → Q (if t x then f x else x))
    → All P xs
    → All Q (update_where t f xs)
update_where-All P Q t f [] g h = tt
update_where-All P Q t f (x ∷ xs) g h = (g x h.0, update_where-All P Q t f xs g h.1)

-- What the change of a row keeps, the update keeps.
pub update_where-keeps {ℓ κ} :
    {A : Type ℓ} (P : A → Type κ) (t : A → Bool) (f : A → A) (xs : List A)
    → ((x : A) → P x → P (f x))
    → All P xs
    → All P (update_where t f xs)
update_where-keeps P t f [] keeps h = tt
update_where-keeps P t f (x ∷ xs) keeps h = elim (Bool-cases (t x)) [
  | inl hit ↦ rw hit (keeps x h.0, update_where-keeps P t f xs keeps h.1)
  | inr miss ↦ rw miss (h.0, update_where-keeps P t f xs keeps h.1)
]

module _ {A : Type 0} where
  module _ (P : A → Type 0) where
    pub All-insert :
        (before : A → A → Bool) (a : A) (xs : List A)
        → P a
        → All P xs
        → All P (insert_by before a xs)
    All-insert before a [] p h = (p, h)
    All-insert before a (x ∷ xs) p h = elim (Bool-cases (before a x)) [
      | inl first ↦ rw first (p, h)
      | inr later ↦ rw later (h.0, All-insert before a xs p h.1)
    ]

    pub All-sort : (before : A → A → Bool) (xs : List A) → All P xs → All P (sort_by before xs)
    All-sort before [] h = tt
    All-sort before (x ∷ xs) h =
        All-insert before x (sort_by before xs) h.0 (All-sort before xs h.1)

    pub All-select : (t : A → Bool) (xs : List A) → All P xs → All P (select t xs)
    All-select t [] h = tt
    All-select t (x ∷ xs) h = elim (Bool-cases (t x)) [
      | inl hit ↦ rw hit (h.0, All-select t xs h.1)
      | inr miss ↦ rw miss (All-select t xs h.1)
    ]

    -- What holds of every row holds of the one that is found.
    pub find?-All : (t : A → Bool) (xs : List A) (b : A) → All P xs → find? t xs ≡ some b → P b
    find?-All t [] b h e = absurd (cc e)
    find?-All t (x ∷ xs) b h e = elim (Bool-cases (t x)) [
      | inl hit ↦ let same : x ≡ b = cc (rw hit at e) in rw (← same) h.0
      | inr miss ↦ find?-All t xs b h.1 (rw miss at e)
    ]

  -- Every selected row passes the test.
  pub select-All : (t : A → Bool) (xs : List A) → All (λ x. t x ≡ true) (select t xs)
  select-All t [] = tt
  select-All t (x ∷ xs) = elim (Bool-cases (t x)) [
    | inl hit ↦ rw hit (hit, select-All t xs)
    | inr miss ↦ rw miss (select-All t xs)
  ]
