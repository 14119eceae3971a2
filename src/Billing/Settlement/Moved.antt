-- ===== src/Billing/Settlement/Moved.antt =====
-- A transition of one payment that moves its money keeps the ledger sound.
use qayoda_backend.Base.{
  ℕ, ◌<◌, ◌≡◌, Bool, true, List, [], ◌∷◌, All, any, arith, Bool-cases, inl, inr, if◌then◌else◌,
  update_where,
}
use qayoda_backend.Billing.Types.{Payment, BillingEvent}
use qayoda_backend.Billing.Store.{Db}
use qayoda_backend.Billing.Settlement.Invariant.{IsSound, IsSettled}
use qayoda_backend.Billing.Settlement.Effects.{Moves}
use qayoda_backend.Billing.Settlement.Rows.{
  All-both, update_where-All, update_one-All, update_where-distinct,
}

-- Soundness does not look at the outbox.
pub IsSound-outbox :
    (db : Db) (events : List BillingEvent) → IsSound db → IsSound (record db { outbox = events })
IsSound-outbox db events h = record {
  balanced = record { accounted = h.balanced.accounted; bounded = h.balanced.bounded };
  below = h.below;
  distinct = h.distinct;
  settled = h.settled;
  fresh = h.fresh;
}

-- The key of a row that is found is in use.
found_below :
    (t : Payment → Bool) (k n : ℕ) (xs : List Payment)
    → ((x : Payment) → t x ≡ true → x.id ≡ k)
    → any t xs ≡ true
    → All (λ q. q.id < n) xs
    → k < n
found_below t k n [] only e h = cc
found_below t k n (x ∷ xs) only e h = elim (Bool-cases (t x)) [
  | inl hit ↦ rw (← only x hit) h.0
  | inr miss ↦ found_below t k n xs only (rw miss at e) h.1
]

module _ (t : Payment → Bool) (f : Payment → Payment) (k amount bonus reversal : ℕ) (db after : Db)
    (only : (x : Payment) → t x ≡ true → x.id ≡ k) (same_id : (x : Payment) → (f x).id ≡ x.id)
    (hit : any t db.payments ≡ true)
    (m : Moves k amount bonus reversal
      (record db { payments = update_where t f db.payments })
      after)
    (h : IsSound db) where
  pub moved-IsSound {κ} :
      (S : Payment → Type κ)
      → All S db.payments
      → ((x : Payment)
          → IsSettled db.transactions x × S x
          → (x.id ≡ k → t x ≡ true)
          → IsSettled after.transactions (if t x then f x else x))
      → IsSound after
  moved-IsSound S snap row =
      let k_below = found_below t k db.next_id db.payments only hit h.below in
      record {
        balanced =
            m.keeps_balance
              (record { accounted = h.balanced.accounted; bounded = h.balanced.bounded });
        below = rw m.same_payments (
            update_where-All (λ q. q.id < db.next_id) (λ q. q.id < after.next_id) t f db.payments
              (λ x lt. ground (arith, same_id x, m.grows)) h.below);
        distinct = rw m.same_payments (update_where-distinct t f k db.payments same_id h.distinct);
        settled = rw m.same_payments (
            update_one-All t f k (λ x. IsSettled db.transactions x × S x)
              (IsSettled after.transactions) db.payments only row h.distinct hit
              (All-both (IsSettled db.transactions) S db.payments h.settled snap));
        fresh = λ j le. ground (arith, h.fresh j, m.tops j, m.bons j, m.revs j, m.grows, k_below);
      }
