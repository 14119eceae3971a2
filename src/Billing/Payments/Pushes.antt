-- ===== src/Billing/Payments/Pushes.antt =====
-- PaymentsService (billing/payments.service.ts): the payments that a provider pushes, `recordPushPayment`.
use qayoda_backend.Base.{ℕ, ◌&&◌, Option, none, some, String, ◌∷◌, if◌then◌else◌, is_text, any}
use qayoda_backend.Billing.Types.{
  PaymentProviderKind, provider_eq, paid, FiscalStatus, Payment, Payload, payment_paid,
}
use qayoda_backend.Billing.Store.{
  Action, ◌>>=◌, ◌>>◌, pure, gets, or_raise, modify, transaction, fresh_id, fresh_prepare_id,
  publish, no_row,
}
use qayoda_backend.Billing.Pricing.{bonus_for}
use qayoda_backend.Billing.Payments.Find.{find_by_id}
use qayoda_backend.Billing.Payments.Transitions.{credit_topup}

-- The row that `recordPushPayment` inserts, with the columns' defaults.
abbrev pub pushed_row :
    ℕ → ℕ → ℕ → PaymentProviderKind → ℕ → ℕ → ℕ → String → Payload → FiscalStatus → Payment
pushed_row now id prepare_id provider user amount bonus txn payload fiscal = record {
  id = id;
  user_id = user;
  client_id = none;
  provider = provider;
  amount = amount;
  bonus_amount = bonus;
  status = paid;
  prepare_id = prepare_id;
  provider_txn_id = some txn;
  provider_doc_id = none;
  provider_payload = some payload;
  provider_error = none;
  provider_create_time = some now;
  provider_perform_time = some now;
  provider_cancel_time = none;
  fiscal_status = fiscal;
  fiscal_attempts = 0;
  fiscal_sent_at = none;
  paid_at = some now;
  cancelled_at = none;
  cancel_reason = none;
  created_at = now;
  updated_at = now;
}

-- `INSERT INTO payments … ON CONFLICT (provider, provider_txn_id) DO NOTHING RETURNING id`
unfoldable pub insert_pushed :
    PaymentProviderKind → ℕ → ℕ → ℕ → String → Payload → FiscalStatus → Action (Option ℕ)
insert_pushed provider user amount bonus txn payload fiscal = do
  id ← fresh_id
  prepare_id ← fresh_prepare_id
  taken ←
      gets λ db.
        any (λ q. provider_eq q.provider provider && is_text txn q.provider_txn_id) db.payments
  if taken then pure none else (do
    modify λ db. record db {
      payments =
          pushed_row db.now id prepare_id provider user amount bonus txn payload fiscal
          ∷ db.payments;
    }
    pure (some id))

-- The rows that the INSERT returned: none is a duplicate, which credits nothing.
unfoldable pub credit_pushed : PaymentProviderKind → ℕ → ℕ → ℕ → Option ℕ → Action (Option ℕ)
credit_pushed provider user amount bonus none = pure none
credit_pushed provider user amount bonus (some id) = do
  balance ← credit_topup user amount bonus id
  publish (payment_paid id user provider amount bonus balance)
  pure (some id)

unfoldable pub record_push_payment :
    PaymentProviderKind → ℕ → ℕ → String → Payload → FiscalStatus → Action (Option Payment)
unfolding insert_pushed credit_pushed find_by_id
record_push_payment provider user amount txn payload fiscal = do
  outcome ← transaction (do
    bonus ← gets (bonus_for amount)
    inserted ← insert_pushed provider user amount bonus.bonus_tiyin txn payload fiscal
    credit_pushed provider user amount bonus.bonus_tiyin inserted)
  elim outcome [
    | none ↦ pure none
    | some id ↦ (do p ← or_raise (← gets (find_by_id id)) no_row; pure (some p))
  ]
