-- ===== src/Billing/Payments/Transitions.antt =====
-- PaymentsService (billing/payments.service.ts): the transitions of a payment.
-- A method takes the `Payment` that its caller has read before; the row may have changed since.
use qayoda_backend.Base.{
  ℕ, ◌+◌, Bool, true, false, not, ◌&&◌, Option, none, some, String, ◌==◌, if◌then◌else◌, is_text,
  find?, any, pos,
}
use qayoda_backend.Billing.Types.{
  PaymentProviderKind, provider_eq, PaymentStatus, prepared, paid, cancelled, status_eq,
  FiscalStatus, TxKind, topup, topup_bonus, Payment, Payload, payment_paid, payment_cancelled,
  payment_reversed,
}
use qayoda_backend.Billing.Store.{
  Db, Result, Action, err, ◌>>=◌, ◌>>◌, pure, gets, raise_if, transaction, publish,
  insufficient_funds, reversal_not_possible, provider_mismatch, unique_violation,
}
use qayoda_backend.Billing.Wallet.{credit, debit, no_audit}
use qayoda_backend.Billing.Pricing.{bonus_for}
use qayoda_backend.Billing.Payments.Find.{is_open, update_payments}

abbrev assert_provider : PaymentProviderKind → Payment → Action (Unit {0})
assert_provider expected p = raise_if (not (provider_eq p.provider expected)) provider_mismatch

-- The unique index on (provider, provider_txn_id): another row than `id` has the reference.
abbrev pub txn_taken : PaymentProviderKind → ℕ → String → Db → Bool
txn_taken provider id txn db =
    any (λ q. not (q.id == id) && provider_eq q.provider provider && is_text txn q.provider_txn_id)
      db.payments

-- The same where the change writes a provider's reference into the row `id`.
abbrev pub update_txn :
    PaymentProviderKind → ℕ → String → (Payment → Bool) → (Payment → Payment) → Action Bool
update_txn provider id txn test change = do
  clash ← gets (λ db. any test db.payments && txn_taken provider id txn db)
  raise_if clash unique_violation
  update_payments test change

-- The row of the payment, of this provider, while its status passes a test.
abbrev pub row_of : PaymentProviderKind → Payment → (PaymentStatus → Bool) → Payment → Bool
row_of provider p status q = q.id == p.id && provider_eq q.provider provider && status q.status

unfoldable pub mark_prepared :
    PaymentProviderKind → Payment → String → Payload → ℕ → Option String → Action Bool
mark_prepared provider p txn payload create_time doc = do
  assert_provider provider p
  now ← gets (λ db. db.now)
  update_txn provider p.id txn (row_of provider p is_open) λ q. record q {
    status = prepared;
    provider_txn_id = some txn;
    provider_doc_id = doc;
    provider_payload = some payload;
    provider_create_time = some create_time;
    updated_at = now;
  }

abbrev pub is_prepared : PaymentStatus → Bool
is_prepared = status_eq prepared

abbrev pub is_paid : PaymentStatus → Bool
is_paid = status_eq paid

-- The credit of a top-up and of its bonus; the last balance.
unfoldable pub credit_topup : ℕ → ℕ → ℕ → ℕ → Action ℕ
credit_topup user amount bonus id = do
  balance ← credit user (pos amount) topup (some id) no_audit
  if bonus == 0 then pure balance else credit user (pos bonus) topup_bonus (some id) no_audit

-- The UPDATE of `markPaid`.
abbrev pub paid_row :
    ℕ → ℕ → ℕ → String → Option String → Payload → FiscalStatus → Payment → Payment
paid_row now bonus perform_time txn doc payload fiscal q = record q {
  status = paid;
  bonus_amount = bonus;
  paid_at = some now;
  provider_perform_time = some perform_time;
  provider_txn_id = some txn;
  provider_doc_id = elim doc [ none ↦ q.provider_doc_id | some d ↦ some d ];
  provider_payload = some payload;
  fiscal_status = fiscal;
  updated_at = now;
}

-- The locked row, if there is one, is prepared.
abbrev pub has_prepared : Option Payment → Bool
has_prepared none = false
has_prepared (some q) = is_prepared q.status

unfoldable pub mark_paid :
    PaymentProviderKind
    → Payment
    → String
    → Payload
    → FiscalStatus
    → ℕ
    → Option String
    → Action Bool
mark_paid provider p txn payload fiscal perform_time doc =
    assert_provider provider p
    >> transaction (do
      locked ← gets (λ db. find? (row_of provider p (λ _. true)) db.payments)
      if not (has_prepared locked) then pure false else (do
        bonus ← gets (bonus_for p.amount)
        now ← gets (λ db. db.now)
        affected ←
            update_txn provider p.id txn (row_of provider p is_prepared)
              (paid_row now bonus.bonus_tiyin perform_time txn doc payload fiscal)
        if not affected then pure false else (do
          balance ← credit_topup p.user_id p.amount bonus.bonus_tiyin p.id
          publish (payment_paid p.id p.user_id provider p.amount bonus.bonus_tiyin balance)
          pure true)))

-- The UPDATE of `cancel`.
abbrev pub cancelled_row : ℕ → ℕ → String → Option String → Option Payload → Payment → Payment
cancelled_row now cancel_time reason error payload q = record q {
  status = cancelled;
  cancelled_at = some now;
  cancel_reason = some reason;
  provider_error = error;
  provider_cancel_time = some cancel_time;
  provider_payload = elim payload [ none ↦ q.provider_payload | some b ↦ some b ];
  updated_at = now;
}

unfoldable pub cancel :
    PaymentProviderKind → Payment → String → Option String → Option Payload → ℕ → Action Bool
cancel provider p reason error payload cancel_time =
    assert_provider provider p
    >> transaction (do
      now ← gets (λ db. db.now)
      affected ←
          update_payments (row_of provider p is_open)
            (cancelled_row now cancel_time reason error payload)
      if affected
          then publish (payment_cancelled p.id p.user_id provider reason) >> pure true
          else pure false)

-- The `catch` of `reverse`: only a refused debit means that the money is spent.
abbrev pub as_reversal : {A : Type 0} → Result A × Db → Result A × Db
as_reversal (err insufficient_funds, db) = (err reversal_not_possible, db)
as_reversal (r, db) = (r, db)

unfoldable pub reverse : PaymentProviderKind → Payment → String → Option String → ℕ → Action Bool
reverse provider p reason error cancel_time =
    assert_provider provider p
    >> transaction (do
      now ← gets (λ db. db.now)
      affected ←
          update_payments (row_of provider p is_paid)
            (cancelled_row now cancel_time reason error none)
      if not affected then pure false else (do
        balance ← λ db. as_reversal (
            debit p.user_id (pos (p.amount + p.bonus_amount)) TxKind.refund (some p.id) no_audit db)
        publish (payment_reversed p.id p.user_id provider (p.amount + p.bonus_amount) balance)
        pure true))
