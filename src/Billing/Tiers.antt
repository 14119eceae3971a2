-- ===== src/Billing/Tiers.antt =====
-- The choice of a bonus tier (`bonusFor` of billing/wallet.service.ts) against its promise.
use qayoda_backend.Base.{
  All-insert, All-sort, find?-All, select-All, ℕ, ◌+◌, ◌*◌, ◌≤◌, ◌<◌, ◌≡◌, ap, true, some, List, [],
  ◌∷◌, find?, select, insert_by, sort_by, All, leb, arith, Bool-cases, Option-cases, inl, inr,
  find?-some_test,
}
use qayoda_backend.Billing.Types.{BonusTier}
use qayoda_backend.Billing.Store.{Db}
use qayoda_backend.Billing.Pricing.{bonus_tier_for, tier_before, bonus_for}

-- The highest minimum comes first.
IsRanked : List BonusTier → Type 0
IsRanked [] = Unit
IsRanked (t ∷ ts) = All (λ s. s.min_amount ≤ t.min_amount) ts × IsRanked ts

insert-IsRanked :
    (t : BonusTier) (ts : List BonusTier) → IsRanked ts → IsRanked (insert_by tier_before t ts)
unfolding IsRanked
insert-IsRanked t [] h = (tt, tt)
insert-IsRanked t (s ∷ ts) h = elim (Bool-cases (tier_before t s)) [
  | inl first ↦ rw first ((ground arith, below t s ts (ground arith) h.0), h)
  | inr later ↦ rw later (
    All-insert (λ r. r.min_amount ≤ s.min_amount) tier_before t ts (ground arith) h.0,
    insert-IsRanked t ts h.1,
  )
]
  where
    below :
        (t s : BonusTier) (ts : List BonusTier)
        → s.min_amount ≤ t.min_amount
        → All (λ r. r.min_amount ≤ s.min_amount) ts
        → All (λ r. r.min_amount ≤ t.min_amount) ts
    below t s [] le h = tt
    below t s (r ∷ ts) le h = (omega (arith, h.0), below t s ts le h.1)

sort-IsRanked : (ts : List BonusTier) → IsRanked (sort_by tier_before ts)
unfolding IsRanked
sort-IsRanked [] = tt
sort-IsRanked (t ∷ ts) = insert-IsRanked t (sort_by tier_before ts) (sort-IsRanked ts)

All-of_insert :
    (P : BonusTier → Type 0) (t : BonusTier) (ts : List BonusTier)
    → All P (insert_by tier_before t ts)
    → P t × All P ts
All-of_insert P t [] h = h
All-of_insert P t (s ∷ ts) h = elim (Bool-cases (tier_before t s)) [
  | inl first ↦ (rw first at h)
  | inr later ↦
      let rest : P s × All P (insert_by tier_before t ts) = rw later at h in
      let both = All-of_insert P t ts rest.1 in (both.0, (rest.0, both.1))
]

All-of_sort :
    (P : BonusTier → Type 0) (ts : List BonusTier) → All P (sort_by tier_before ts) → All P ts
All-of_sort P [] h = tt
All-of_sort P (t ∷ ts) h =
    let both = All-of_insert P t (sort_by tier_before ts) h in (both.0, All-of_sort P ts both.1)

-- What the first tier that the amount reaches is to the others.
first-highest :
    (amount : ℕ) (ts : List BonusTier) (t : BonusTier)
    → IsRanked ts
    → find? (λ s. leb s.min_amount amount) ts ≡ some t
    → All (λ s. s.min_amount ≤ amount → s.min_amount ≤ t.min_amount) ts
unfolding IsRanked
first-highest amount [] t h e = tt
first-highest amount (s ∷ ts) t h e = elim (Bool-cases (leb s.min_amount amount)) [
  | inl hit ↦
      let same : s ≡ t = cc (rw hit at e) in
      ((λ _. ground arith), weaken ts t (ap (λ (r : BonusTier). r.min_amount) same) h.0)
  | inr miss ↦ (ground arith, first-highest amount ts t h.1 (rw miss at e))
]
  where
    weaken :
        (ts : List BonusTier) (t : BonusTier)
        → s.min_amount ≡ t.min_amount
        → All (λ r. r.min_amount ≤ s.min_amount) ts
        → All (λ r. r.min_amount ≤ amount → r.min_amount ≤ t.min_amount) ts
    weaken [] t e h = tt
    weaken (r ∷ ts) t e h = ((λ _. omega (arith, h.0)), weaken ts t e h.1)

-- The tier of a top-up is active, the amount reaches it, and of the active tiers that the amount
-- reaches none has a higher minimum.
pub bonus_tier_for-highest :
    (amount : ℕ) (db : Db) (t : BonusTier)
    → bonus_tier_for amount db ≡ some t
    → (t.is_active ≡ true)
      × (t.min_amount ≤ amount)
      × All
          (λ s. s.min_amount ≤ amount → s.min_amount ≤ t.min_amount)
          (select (λ s. s.is_active) db.bonus_tiers)
unfolding bonus_tier_for
bonus_tier_for-highest amount db t e =
    let active = select (λ (s : BonusTier). s.is_active) db.bonus_tiers in
    (
      find?-All (λ s. s.is_active ≡ true) _ (sort_by tier_before active) t
          (All-sort (λ s. s.is_active ≡ true) tier_before active
            (select-All (λ s. s.is_active) db.bonus_tiers))
          e,
      (let reached = find?-some_test _ (sort_by tier_before active) t e in ground arith),
      All-of_sort (λ s. s.min_amount ≤ amount → s.min_amount ≤ t.min_amount) active
          (first-highest amount (sort_by tier_before active) t (sort-IsRanked active) e),
    )

-- A bonus is the tier's share of the amount, rounded down to a tiyin.
pub bonus_for-share :
    (amount : ℕ) (db : Db)
    → ((bonus_for amount db).bonus_tiyin * 100 ≤ amount * (bonus_for amount db).percent)
      × (amount * (bonus_for amount db).percent < (bonus_for amount db).bonus_tiyin * 100 + 100)
unfolding bonus_for
bonus_for-share amount db = elim (Option-cases (bonus_tier_for amount db)) [
  | inl without ↦ rw (without, bonus_for) (omega arith, omega arith)
  | inr (t, found) ↦ rw (found, bonus_for) (omega arith, omega arith)
]
