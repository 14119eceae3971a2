-- ===== src/Billing/Settlement/Rows.antt =====
-- Updates of the rows of payments, by their primary key.
use qayoda_backend.Base.{
  ℕ, ◌≡◌, ◌≢◌, ◌∙◌, sym, Bool, true, List, [], ◌∷◌, if◌then◌else◌, All, any, update_where, arith,
  Bool-cases, inl, inr,
}
pub use qayoda_backend.Base.{All-map, All-both, update_where-All}
use qayoda_backend.Billing.Types.{Payment}
use qayoda_backend.Billing.Settlement.Invariant.{HasDistinctIds}

module _ (t : Payment → Bool) (f : Payment → Payment) (k : ℕ) where
  none_other :
      (xs : List Payment)
      → ((x : Payment) → t x ≡ true → x.id ≡ k)
      → All (λ q. q.id ≢ k) xs
      → any t xs ≡ true
      → ⊥
  none_other [] only h e = cc
  none_other (x ∷ xs) only h e = elim (Bool-cases (t x)) [
    | inl hit ↦ h.0 (only x hit)
    | inr miss ↦ none_other xs only h.1 (rw miss at e)
  ]

  -- The test picks out the one row with the key `k`, if it finds any: the other rows have other
  -- keys.
  pub update_one-All {κ μ} :
      (P : Payment → Type κ) (Q : Payment → Type μ) (xs : List Payment)
      → ((x : Payment) → t x ≡ true → x.id ≡ k)
      → ((x : Payment) → P x → (x.id ≡ k → t x ≡ true) → Q (if t x then f x else x))
      → HasDistinctIds xs
      → any t xs ≡ true
      → All P xs
      → All Q (update_where t f xs)
  update_one-All P Q [] only g d e h = tt
  update_one-All P Q (x ∷ xs) only g d e h = elim (Bool-cases (t x)) [
    | inl hit ↦ (
      g x h.0 (λ _. hit),
      update_where-All (λ y. P y × (y.id ≢ x.id)) Q t f xs
          (λ y r. g y r.0 (λ same. absurd (r.1 (same ∙ sym (only x hit)))))
          (All-both P (λ y. y.id ≢ x.id) xs h.1 d.0),
    )
    | inr miss ↦ (
      g x h.0 (λ same. absurd (none_other xs only (rw (← same) d.0) (rw miss at e))),
      update_one-All P Q xs only g d.1 (rw miss at e) h.1,
    )
  ]

  pub update_where-distinct :
      (xs : List Payment)
      → ((x : Payment) → (f x).id ≡ x.id)
      → HasDistinctIds xs
      → HasDistinctIds (update_where t f xs)
  update_where-distinct [] same h = tt
  update_where-distinct (x ∷ xs) same h = (
    update_where-All (λ q. q.id ≢ x.id) (λ q. q.id ≢ (if t x then f x else x).id) t f xs
        (λ y ne. ground (arith, same x, same y, ne)) h.0,
    update_where-distinct xs same h.1,
  )
