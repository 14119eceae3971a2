-- ===== src/Billing/Repeated/Pushes.antt =====
-- A pushed payment that comes again (`recordPushPayment` of billing/payments.service.ts).
use qayoda_backend.Base.{
  ℕ, ◌+◌, ◌≡◌, refl, sym, ap, ◌∙◌, Bool, true, ◌&&◌, Option, none, some, String, any, is_text,
  arith, eq_iff,
}
use qayoda_backend.Billing.Types.{PaymentProviderKind, provider_eq, Payload, FiscalStatus, Payment}
use qayoda_backend.Billing.Store.{Db, ok, Result}
use qayoda_backend.Billing.Payments.{record_push_payment, insert_pushed, credit_pushed}
use qayoda_backend.Billing.Settlement.Effects.{credit_topup-Moves}
use qayoda_backend.Billing.Settlement.Outcomes.{bonus_of, provider_eq_of}
use qayoda_backend.Billing.Settlement.Inserted.{
  record_push_payment-Pushed, inserted, skipped, refused, pushed,
}

-- A row of the provider has the reference.
abbrev pub has_txn : PaymentProviderKind → String → Db → Bool
has_txn provider txn db =
    any (λ q. provider_eq q.provider provider && is_text txn q.provider_txn_id) db.payments

duplicate_lem :
    (provider : PaymentProviderKind) (user amount : ℕ) (txn : String) (payload : Payload)
    (fiscal : FiscalStatus) (db : Db)
    → has_txn provider txn db ≡ true
    → record_push_payment provider user amount txn payload fiscal db
      ≡ (ok none, record db { next_id = db.next_id + 1; next_prepare = db.next_prepare + 1 })
unfolding record_push_payment insert_pushed credit_pushed
duplicate_lem provider user amount txn payload fiscal db h = rw h refl

-- The reference of a payment that was recorded is in the table.
recorded-has_txn :
    (provider : PaymentProviderKind) (user amount : ℕ) (txn : String) (payload : Payload)
    (fiscal : FiscalStatus) (db t : Db) (x : Payment)
    → record_push_payment provider user amount txn payload fiscal db ≡ (ok (some x), t)
    → has_txn provider txn t ≡ true
recorded-has_txn provider user amount txn payload fiscal db t x e =
    elim (record_push_payment-Pushed db provider user amount txn payload fiscal) [
      | skipped lost ↦ absurd (cc (sym lost ∙ e))
      | refused same ne ↦ absurd (ne x (ap (λ (r : Result (Option Payment) × Db). r.0) e))
      | pushed b after done state ↦
          let last : t ≡ _ = sym (ap (λ (r : Result (Option Payment) × Db). r.1) e) ∙ state in
          let m =
            credit_topup-Moves user amount (bonus_of amount db) db.next_id
              (inserted db provider user amount txn payload fiscal) after b done in
          rw (last, m.same_payments)
            (ground
              (arith, provider_eq_of {a = provider} {b = provider} refl, (eq_iff txn txn).1 refl))
    ]

-- After a push has been recorded, a push of the same provider and reference is a duplicate, for
-- whatever user and amount and whatever else of the database has changed than the rows of payments:
-- it is answered so, and credits and inserts nothing.
pub record_push_payment-once :
    (provider : PaymentProviderKind) (user amount user' amount' : ℕ) (txn : String)
    (payload payload' : Payload) (fiscal fiscal' : FiscalStatus) (db t s : Db) (x : Payment)
    → record_push_payment provider user amount txn payload fiscal db ≡ (ok (some x), t)
    → s.payments ≡ t.payments
    → record_push_payment provider user' amount' txn payload' fiscal' s
      ≡ (ok none, record s { next_id = s.next_id + 1; next_prepare = s.next_prepare + 1 })
record_push_payment-once provider user amount user' amount' txn payload payload' fiscal fiscal' db t
      s x e same =
    let there = recorded-has_txn provider user amount txn payload fiscal db t x e in
    duplicate_lem provider user' amount' txn payload' fiscal' s (rw same there)
