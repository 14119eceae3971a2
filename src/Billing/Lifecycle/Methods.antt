-- ===== src/Billing/Lifecycle/Methods.antt =====
-- A payment that was read stays a snapshot of its row through every method of payments.service.ts,
-- topup.service.ts and wallet.service.ts.
use qayoda_backend.Base.{
  ℕ, ◌+◌, ◌≡◌, refl, Bool, true, false, ◌&&◌, Option, String, ◌∷◌, any, arith, Bool-cases, inl, inr,
  update_where-none,
}
use qayoda_backend.Billing.Types.{
  PaymentProviderKind, provider_eq, Payment, Payload, FiscalStatus, BillingEvent, payment_paid,
}
use qayoda_backend.Billing.Store.{Db, Result, ok}
use qayoda_backend.Billing.Payments.{
  row_of, is_open, is_prepared, is_paid, mark_prepared, mark_paid, cancel, reverse, claim_fiscal,
  mark_fiscal_result, expire_stale_payments, txn_taken, cancelled_row, record_push_payment,
}
use qayoda_backend.Billing.Topup.{create_order, insert_order, order_row}
use qayoda_backend.Billing.Settlement.Snapshot.{IsSnapshot}
use qayoda_backend.Billing.Settlement.Effects.{
  Moves, credit_topup-Moves, reversal-Moves, as_reversal-eq_ok,
}
use qayoda_backend.Billing.Settlement.Outcomes.{
  bonus_of, paid_rows, reversed_rows, Outcome, through, unchanged, mark_paid-Outcome,
  reverse-Outcome,
}
use qayoda_backend.Billing.Settlement.Inserted.{
  create_order-state, has_client, skipped, refused, pushed, record_push_payment-Pushed, inserted,
}
use qayoda_backend.Billing.Settlement.Charged.{Idle}
use qayoda_backend.Billing.Lifecycle.Kept.{update-IsSnapshot, same-IsSnapshot, insert-IsSnapshot}

module _ (p : Payment) (db : Db) (s : IsSnapshot p db) where
  pub mark_prepared-IsSnapshot :
      (provider : PaymentProviderKind) (q : Payment) (txn : String) (payload : Payload)
      (create_time : ℕ) (doc : Option String)
      → IsSnapshot p (mark_prepared provider q txn payload create_time doc db).1
  unfolding mark_prepared
  mark_prepared-IsSnapshot provider q txn payload create_time doc =
      elim (Bool-cases (provider_eq q.provider provider)) [
        | inr other ↦ rw other s
        | inl same ↦
            elim (Bool-cases
              (any (row_of provider q is_open) db.payments && txn_taken provider q.id txn db)) [
                | inl clash ↦ rw (same, clash) s
                | inr free ↦
                    rw (same, free)
                      (update-IsSnapshot p db s (row_of provider q is_open) _ (λ x. refl)
                        (λ x e. ground arith))
              ]
      ]

  pub cancel-IsSnapshot :
      (provider : PaymentProviderKind) (q : Payment) (reason : String) (error : Option String)
      (payload : Option Payload) (cancel_time : ℕ)
      → IsSnapshot p (cancel provider q reason error payload cancel_time db).1
  unfolding cancel
  cancel-IsSnapshot provider q reason error payload cancel_time =
      elim (Bool-cases (provider_eq q.provider provider)) [
        | inr other ↦ rw other s
        | inl same ↦ elim (Bool-cases (any (row_of provider q is_open) db.payments)) [
          | inr gone ↦ rw (same, gone, update_where-none _ _ _ gone) s
          | inl hit ↦
              let k =
                update-IsSnapshot p db s (row_of provider q is_open)
                  (cancelled_row db.now cancel_time reason error payload) (λ x. refl)
                  (λ x e. ground arith) in
              rw (same, hit) (record { known = k.known; row = k.row })
        ]
      ]

  paid_rows-IsSnapshot :
      (provider : PaymentProviderKind) (q : Payment) (txn : String) (payload : Payload)
      (fiscal : FiscalStatus) (perform_time : ℕ) (doc : Option String)
      → IsSnapshot p (paid_rows provider q db txn payload fiscal perform_time doc)
  paid_rows-IsSnapshot provider q txn payload fiscal perform_time doc =
      update-IsSnapshot p db s (row_of provider q is_prepared) _ (λ x. refl) (λ x e. ground arith)

  reversed_rows-IsSnapshot :
      (provider : PaymentProviderKind) (q : Payment) (reason : String) (error : Option String)
      (cancel_time : ℕ)
      → IsSnapshot p (reversed_rows provider q db reason error cancel_time)
  reversed_rows-IsSnapshot provider q reason error cancel_time =
      update-IsSnapshot p db s (row_of provider q is_paid) _ (λ x. refl) (λ x e. ground arith)

  by-Outcome :
      (hit : Bool) (event : ℕ → BillingEvent) (rows : Db) (money : Result ℕ × Db)
      (r : Result Bool × Db) (k a c v : ℕ)
      → IsSnapshot p rows
      → ((b : ℕ) (after : Db) → money ≡ (ok b, after) → Moves k a c v rows after)
      → Outcome db hit event money r
      → IsSnapshot p r.1
  by-Outcome hit event rows money r k a c v t moves (through b after h done e) =
      let m = moves b after done in
      rw e (
        same-IsSnapshot p rows t (record after { outbox = event b ∷ after.outbox }) m.same_payments
          m.grows)
  by-Outcome hit event rows money r k a c v t moves (unchanged e _) = rw e s

  pub mark_paid-IsSnapshot :
      (provider : PaymentProviderKind) (q : Payment) (txn : String) (payload : Payload)
      (fiscal : FiscalStatus) (perform_time : ℕ) (doc : Option String)
      → IsSnapshot p (mark_paid provider q txn payload fiscal perform_time doc db).1
  mark_paid-IsSnapshot provider q txn payload fiscal perform_time doc =
      by-Outcome _ _ (paid_rows provider q db txn payload fiscal perform_time doc) _ _ q.id q.amount
        (bonus_of q.amount db) 0
        (paid_rows-IsSnapshot provider q txn payload fiscal perform_time doc)
        (λ b after done.
          credit_topup-Moves q.user_id q.amount (bonus_of q.amount db) q.id _ after b done)
        (mark_paid-Outcome provider q db txn payload fiscal perform_time doc)

  pub reverse-IsSnapshot :
      (provider : PaymentProviderKind) (q : Payment) (reason : String) (error : Option String)
      (cancel_time : ℕ)
      → IsSnapshot p (reverse provider q reason error cancel_time db).1
  reverse-IsSnapshot provider q reason error cancel_time =
      by-Outcome _ _ (reversed_rows provider q db reason error cancel_time) _ _ q.id 0 0
        (q.amount + q.bonus_amount) (reversed_rows-IsSnapshot provider q reason error cancel_time)
        (λ b after done.
          reversal-Moves q.user_id (q.amount + q.bonus_amount) q.id _ after b
            (as_reversal-eq_ok _ b after done))
        (reverse-Outcome provider q db reason error cancel_time)

  pub claim_fiscal-IsSnapshot : (id : ℕ) → IsSnapshot p (claim_fiscal id db).1
  unfolding claim_fiscal
  claim_fiscal-IsSnapshot id = update-IsSnapshot p db s _ _ (λ x. refl) (λ x e. ground arith)

  pub mark_fiscal_result-IsSnapshot :
      (id : ℕ) (success : Bool) → IsSnapshot p (mark_fiscal_result id success db).1
  unfolding mark_fiscal_result
  mark_fiscal_result-IsSnapshot id true =
      update-IsSnapshot p db s _ _ (λ x. refl) (λ x e. ground arith)
  mark_fiscal_result-IsSnapshot id false =
      update-IsSnapshot p db s _ _ (λ x. refl) (λ x e. ground arith)

  pub expire_stale_payments-IsSnapshot : IsSnapshot p (expire_stale_payments db)
  unfolding expire_stale_payments
  expire_stale_payments-IsSnapshot = update-IsSnapshot p db s _ _ (λ x. refl) (λ x e. ground arith)

  insert_order-IsSnapshot :
      (skip : Bool) (kind : PaymentProviderKind) (user amount : ℕ) (client : Option ℕ)
      → IsSnapshot p (insert_order skip kind user amount client db).1
  unfolding insert_order
  insert_order-IsSnapshot true kind user amount client = same-IsSnapshot p db s _ refl (omega arith)
  insert_order-IsSnapshot false kind user amount client =
      insert-IsSnapshot p db s (order_row db.now db.next_id db.next_prepare kind user amount client)
        _ refl refl (omega arith)

  pub create_order-IsSnapshot :
      (user : ℕ) (kind : PaymentProviderKind) (amount : ℕ) (client : Option ℕ)
      → IsSnapshot p (create_order user kind amount client db).1
  create_order-IsSnapshot user kind amount client =
      rw (create_order-state user kind amount client db)
        (insert_order-IsSnapshot (has_client user client db) kind user amount client)

  pub record_push_payment-IsSnapshot :
      (provider : PaymentProviderKind) (user amount : ℕ) (txn : String) (payload : Payload)
      (fiscal : FiscalStatus)
      → IsSnapshot p (record_push_payment provider user amount txn payload fiscal db).1
  record_push_payment-IsSnapshot provider user amount txn payload fiscal =
      elim (record_push_payment-Pushed db provider user amount txn payload fiscal) [
        | skipped e ↦ rw e (same-IsSnapshot p db s _ refl (omega arith))
        | refused e _ ↦ rw e s
        | pushed b after done e ↦
            let m =
              credit_topup-Moves user amount (bonus_of amount db) db.next_id
                (inserted db provider user amount txn payload fiscal) after b done in
            rw e (
              insert-IsSnapshot p db s _
                (record after {
                  outbox =
                      payment_paid db.next_id user provider amount (bonus_of amount db) b
                      ∷ after.outbox;
                })
                refl m.same_payments (omega (arith, m.grows)))
      ]

  pub Idle-IsSnapshot : (after : Db) → Idle db after → IsSnapshot p after
  Idle-IsSnapshot after i = same-IsSnapshot p db s after i.same_payments i.grows
