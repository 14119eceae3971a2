-- ===== src/Billing/Payments/Find.antt =====
-- PaymentsService (billing/payments.service.ts): how payments are found and listed.
use qayoda_backend.Base.{
  ℕ, ◌+◌, Bool, true, false, ◌&&◌, ◌||◌, Option, none, some, String, List, ltb, leb, ◌==◌,
  if◌then◌else◌, is_text, str_eq, or_default, find?, any, select, sort_by, take, update_where,
}
use qayoda_backend.Base.Text.{uuid_of}
use qayoda_backend.Billing.Types.{
  PaymentProviderKind, provider_eq, PaymentStatus, created, prepared, paid, cancelled, status_eq,
  FiscalStatus, pending, sending, Payment, fiscal_claim_stale_ms,
}
use qayoda_backend.Billing.Store.{Db, Action, ok}

-- `OPEN`
abbrev pub is_open : PaymentStatus → Bool
is_open created = true
is_open prepared = true
is_open paid = false
is_open cancelled = false

unfoldable pub find_by_id : ℕ → Db → Option Payment
find_by_id id db = find? (λ p. p.id == id) db.payments

unfoldable pub find_by_merchant_ref : PaymentProviderKind → Option String → Db → Option Payment
find_by_merchant_ref provider none db = none
find_by_merchant_ref provider (some ref) db = elim (uuid_of ref) [
  | none ↦ none
  | some id ↦ find? (λ p. p.id == id && provider_eq p.provider provider) db.payments
]

unfoldable pub find_by_prepare_id : PaymentProviderKind → ℕ → Db → Option Payment
find_by_prepare_id provider id db =
    find? (λ p. p.prepare_id == id && provider_eq p.provider provider) db.payments

-- An empty reference finds nothing.
unfoldable pub find_by_provider_txn : PaymentProviderKind → String → Db → Option Payment
find_by_provider_txn provider txn db =
    if str_eq txn ""
    then none
    else find? (λ p. provider_eq p.provider provider && is_text txn p.provider_txn_id) db.payments

abbrev between : ℕ → ℕ → Option ℕ → Bool
between lo hi none = false
between lo hi (some t) = leb lo t && leb t hi

unfoldable pub list_by_create_time : PaymentProviderKind → ℕ → ℕ → Db → List Payment
list_by_create_time provider lo hi db =
    sort_by (λ p q. leb (or_default p.provider_create_time 0) (or_default q.provider_create_time 0))
      (select (λ p. provider_eq p.provider provider && between lo hi p.provider_create_time)
        db.payments)

abbrev paid_before : Payment → Payment → Bool
paid_before p q = leb (or_default p.paid_at 0) (or_default q.paid_at 0)

unfoldable pub list_paid_between : PaymentProviderKind → ℕ → ℕ → Db → List Payment
list_paid_between provider lo hi db = sort_by paid_before (
    select
      (λ p. provider_eq p.provider provider && status_eq p.status paid && between lo hi p.paid_at)
      db.payments)

abbrev pub is_pending : FiscalStatus → Bool
is_pending pending = true
is_pending _ = false

abbrev pub is_sending : FiscalStatus → Bool
is_sending sending = true
is_sending _ = false

-- A receipt is owed: pending, or claimed by a submit that is stale at `now`.
abbrev pub receipt_due : ℕ → Payment → Bool
receipt_due now p =
    status_eq p.status paid
    && (is_pending p.fiscal_status
        || is_sending p.fiscal_status && ltb (p.updated_at + fiscal_claim_stale_ms) now)

unfoldable pub list_fiscal_due : PaymentProviderKind → ℕ → Db → List Payment
list_fiscal_due provider limit db = take limit (
    sort_by paid_before
      (select (λ p. provider_eq p.provider provider && receipt_due db.now p) db.payments))

-- `UPDATE payments SET … WHERE …`, and whether a row was affected.
abbrev pub update_payments : (Payment → Bool) → (Payment → Payment) → Action Bool
update_payments test change db =
    (ok (any test db.payments), record db { payments = update_where test change db.payments })
