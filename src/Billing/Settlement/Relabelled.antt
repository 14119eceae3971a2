-- ===== src/Billing/Settlement/Relabelled.antt =====
-- The operations on payments that move no money (payments.service.ts, topup.service.ts) keep the
-- ledger sound.
use qayoda_backend.Base.{
  ℕ, ◌<◌, ◌≡◌, refl, ◌&&◌, Bool, true, false, Option, String, any, arith, Bool-cases, inl, inr,
  if◌then◌else◌, update_where, update_where-none,
}
use qayoda_backend.Billing.Types.{PaymentProviderKind, provider_eq, Payment, Payload}
use qayoda_backend.Billing.Store.{Db}
use qayoda_backend.Billing.Payments.{
  row_of, is_open, mark_prepared, cancel, claim_fiscal, mark_fiscal_result, expire_stale_payments,
  txn_taken,
}
use qayoda_backend.Billing.Settlement.Invariant.{IsSound, IsSettled}
use qayoda_backend.Billing.Settlement.Moved.{IsSound-outbox}
use qayoda_backend.Billing.Settlement.Rows.{update_where-All, update_where-distinct}

-- An update that keeps every row settled.
relabel-IsSound :
    (t : Payment → Bool) (f : Payment → Payment) (db : Db)
    → ((x : Payment) → (f x).id ≡ x.id)
    → ((x : Payment)
        → IsSettled db.transactions x
        → IsSettled db.transactions (if t x then f x else x))
    → IsSound db
    → IsSound (record db { payments = update_where t f db.payments })
relabel-IsSound t f db same keep h = record {
  balanced = record { accounted = h.balanced.accounted; bounded = h.balanced.bounded };
  below =
      update_where-All (λ q. q.id < db.next_id) (λ q. q.id < db.next_id) t f db.payments
        (λ x lt. ground (arith, same x)) h.below;
  distinct = update_where-distinct t f 0 db.payments same h.distinct;
  settled =
      update_where-All (IsSettled db.transactions) (IsSettled db.transactions) t f db.payments keep
        h.settled;
  fresh = h.fresh;
}

module _ (db : Db) (h : IsSound db) where
  -- An order accepted by a provider.
  pub mark_prepared-IsSound :
      (provider : PaymentProviderKind) (p : Payment) (txn : String) (payload : Payload)
      (create_time : ℕ) (doc : Option String)
      → IsSound (mark_prepared provider p txn payload create_time doc db).1
  unfolding mark_prepared
  mark_prepared-IsSound provider p txn payload create_time doc =
      elim (Bool-cases (provider_eq p.provider provider)) [
        | inr other ↦ rw other h
        | inl same ↦
            elim (Bool-cases
              (any (row_of provider p is_open) db.payments && txn_taken provider p.id txn db)) [
                | inl clash ↦ rw (same, clash) h
                | inr free ↦
                    rw (same, free)
                      (relabel-IsSound (row_of provider p is_open) _ db (λ x. refl)
                        (λ x s. ground arith) h)
              ]
      ]

  -- A cancelled order.
  pub cancel-IsSound :
      (provider : PaymentProviderKind) (p : Payment) (reason : String) (error : Option String)
      (payload : Option Payload) (cancel_time : ℕ)
      → IsSound (cancel provider p reason error payload cancel_time db).1
  unfolding cancel
  cancel-IsSound provider p reason error payload cancel_time =
      elim (Bool-cases (provider_eq p.provider provider)) [
        | inr other ↦ rw other h
        | inl same ↦ elim (Bool-cases (any (row_of provider p is_open) db.payments)) [
          | inr gone ↦ rw (same, gone, update_where-none _ _ _ gone) h
          | inl hit ↦
              rw (same, hit)
                (IsSound-outbox _ _ (
                  relabel-IsSound (row_of provider p is_open) _ db (λ x. refl) (λ x s. ground arith)
                    h))
        ]
      ]

  -- A claimed receipt.
  pub claim_fiscal-IsSound : (id : ℕ) → IsSound (claim_fiscal id db).1
  unfolding claim_fiscal
  claim_fiscal-IsSound id = relabel-IsSound _ _ db (λ x. refl) (λ x s. ground arith) h

  -- The result of a receipt.
  pub mark_fiscal_result-IsSound :
      (id : ℕ) (success : Bool) → IsSound (mark_fiscal_result id success db).1
  unfolding mark_fiscal_result
  mark_fiscal_result-IsSound id true = relabel-IsSound _ _ db (λ x. refl) (λ x s. ground arith) h
  mark_fiscal_result-IsSound id false = relabel-IsSound _ _ db (λ x. refl) (λ x s. ground arith) h

  -- Expired orders.
  pub expire_stale_payments-IsSound : IsSound (expire_stale_payments db)
  unfolding expire_stale_payments
  expire_stale_payments-IsSound = relabel-IsSound _ _ db (λ x. refl) (λ x s. ground arith) h
