-- ===== src/Billing/Payments/Housekeeping.antt =====
-- PaymentsService (billing/payments.service.ts): receipts, the audit rows and the expiry of orders.
use qayoda_backend.Base.{
  ℕ, ◌+◌, Bool, true, false, ◌&&◌, some, ◌∷◌, ltb, leb, ◌==◌, if◌then◌else◌, update_where,
}
use qayoda_backend.Billing.Types.{
  PaymentProviderKind, cancelled, pending, sending, sent, failed, Payment, payment_ttl_ms,
  fiscal_max_attempts,
}
use qayoda_backend.Billing.Store.{Db, Action, ◌>>=◌, ◌>>◌, pure, gets}
use qayoda_backend.Billing.Payments.Find.{is_open, receipt_due, update_payments}

unfoldable pub claim_fiscal : ℕ → Action Bool
claim_fiscal id = do
  now ← gets (λ db. db.now)
  update_payments (λ q. q.id == id && receipt_due now q)
      (λ q. record q { fiscal_status = sending; updated_at = now })

-- The UPDATE of `markFiscalResult`.
abbrev pub fiscal_row : ℕ → Bool → Payment → Payment
fiscal_row now true q = record q {
  fiscal_status = sent;
  fiscal_attempts = q.fiscal_attempts + 1;
  fiscal_sent_at = some now;
  updated_at = now;
}
fiscal_row now false q = record q {
  fiscal_status = if leb fiscal_max_attempts (q.fiscal_attempts + 1) then failed else pending;
  fiscal_attempts = q.fiscal_attempts + 1;
  updated_at = now;
}

unfoldable pub mark_fiscal_result : ℕ → Bool → Action (Unit {0})
mark_fiscal_result id success = do
  now ← gets (λ db. db.now)
  update_payments (λ q. q.id == id) (fiscal_row now success) >> pure tt

-- The audit row. Its insertion has no effect on the answer, also when it fails.
unfoldable pub log_webhook : PaymentProviderKind → Bool → Db → Db
log_webhook provider signature_valid db = record db {
  webhook_events =
      record { provider = provider; signature_valid = signature_valid; created_at = db.now }
      ∷ db.webhook_events;
}

unfoldable pub expire_stale_payments : Db → Db
expire_stale_payments db = record db {
  payments =
      update_where (λ q. is_open q.status && ltb (q.updated_at + payment_ttl_ms) db.now)
        (λ q. record q {
          status = cancelled;
          cancelled_at = some db.now;
          cancel_reason = some "timeout";
          provider_cancel_time = some db.now;
          updated_at = db.now;
        })
        db.payments;
}
