-- ===== src/Billing/Settlement/Outcomes.antt =====
-- The transitions of billing/payments.service.ts, case by case, with the money they move.
use qayoda_backend.Base.{
  ℕ, ◌+◌, ◌≡◌, ◌≢◌, refl, Bool, true, false, not, ◌&&◌, Option, none, some, String, ◌∷◌,
  if◌then◌else◌, any, find?, update_where, update_where-none, pos, arith, Bool-cases, Option-cases,
  inl, inr,
}
use qayoda_backend.Billing.Types.{
  PaymentProviderKind, provider_eq, FiscalStatus, Payment, Payload, payment_paid, BillingEvent,
  payment_reversed, TxKind,
}
use qayoda_backend.Billing.Store.{
  Db, Result-cases, Result, ok, err, provider_mismatch, unique_violation,
}
use qayoda_backend.Billing.Wallet.{debit, no_audit}
use qayoda_backend.Billing.Pricing.{bonus_for}
use qayoda_backend.Billing.Payments.{
  row_of, has_prepared, is_prepared, is_paid, txn_taken, credit_topup, paid_row, mark_paid, reverse,
  cancelled_row, as_reversal,
}

abbrev pub bonus_of : ℕ → Db → ℕ
bonus_of amount db = (bonus_for amount db).bonus_tiyin

pub provider_eq_of : {a b : PaymentProviderKind} → a ≡ b → provider_eq a b ≡ true
provider_eq_of e = ground arith

-- The end of a transaction: its event is written with the new balance, or nothing is left of it.
abbrev pub told : Db → (ℕ → BillingEvent) → Result ℕ × Db → Result Bool × Db
told db event (ok b, after) = (ok true, record after { outbox = event b ∷ after.outbox })
told db event (err e, after) = (err e, db)

-- A transition has gone through, with the state that its money left and the last balance; or
-- nothing has changed, and it has not said that it went through.
pub data Outcome (db : Db) (hit : Bool) (event : ℕ → BillingEvent) (money : Result ℕ × Db)
    (r : Result Bool × Db) : Type 0 where
  through :
      (b : ℕ) (after : Db)
      → hit ≡ true
      → money ≡ (ok b, after)
      → r ≡ (ok true, record after { outbox = event b ∷ after.outbox })
      → Outcome db hit event money r
  unchanged : r.1 ≡ db → r.0 ≢ ok true → Outcome db hit event money r

told-Outcome :
    (db : Db) (hit : Bool) (event : ℕ → BillingEvent) (money : Result ℕ × Db)
    → hit ≡ true
    → Outcome db hit event money (told db event money)
told-Outcome db hit event (ok b, after) e = through b after e refl refl
told-Outcome db hit event (err x, after) e = unchanged refl (λ q. cc)

module _ (provider : PaymentProviderKind) (p : Payment) (db : Db) where
  -- The row of the payment is found, and is prepared.
  abbrev pub found_prepared : Bool
  found_prepared = has_prepared (find? (row_of provider p (λ _. true)) db.payments)

  module _ (txn : String) (payload : Payload) (fiscal : FiscalStatus) (perform_time : ℕ)
      (doc : Option String) where
    -- The rows once the payment is marked as paid.
    abbrev pub paid_rows : Db
    paid_rows = record db {
      payments =
          update_where (row_of provider p is_prepared)
            (paid_row db.now (bonus_of p.amount db) perform_time txn doc payload fiscal)
            db.payments;
    }

    abbrev pub paid_credit : Result ℕ × Db
    paid_credit = credit_topup p.user_id p.amount (bonus_of p.amount db) p.id paid_rows

    -- `markPaid` on every branch: another provider's payment raises; a row that is not prepared
    -- answers false; a reference that another row has raises; otherwise the row is marked, the
    -- top-up is credited and the event written, or all of it is undone if the credit fails.
    pub mark_paid_lem : mark_paid provider p txn payload fiscal perform_time doc db ≡ (
        if not (provider_eq p.provider provider)
        then (err provider_mismatch, db)
        else if not found_prepared
        then (ok false, db)
        else if any (row_of provider p is_prepared) db.payments && txn_taken provider p.id txn db
        then (err unique_violation, db)
        else if not (any (row_of provider p is_prepared) db.payments)
        then (ok false, db)
        else told db
            (payment_paid p.id p.user_id provider p.amount (bonus_of p.amount db))
            paid_credit)
    unfolding mark_paid
    mark_paid_lem = elim (Bool-cases (provider_eq p.provider provider)) [
      | inr e ↦ rw e
      | inl e ↦ elim (Option-cases (find? (row_of provider p (λ _. true)) db.payments)) [
        | inl absent ↦ rw (e, absent)
        | inr (q, found) ↦ elim (Bool-cases (is_prepared q.status)) [
          | inr other ↦ rw (e, found, other)
          | inl ready ↦ elim (Bool-cases (any (row_of provider p is_prepared) db.payments)) [
            | inr gone ↦ rw (e, found, ready, gone, update_where-none _ _ _ gone, gone)
            | inl here ↦ elim (Bool-cases (txn_taken provider p.id txn db)) [
              | inl taken ↦ rw (e, found, ready, here, taken)
              | inr free ↦ elim (Result-cases paid_credit) [
                | inl (b, after, done) ↦ rw (e, found, ready, here, free, here, done)
                | inr (x, after, refused) ↦ rw (e, found, ready, here, free, here, refused)
              ]
            ]
          ]
        ]
      ]
    ]

    -- `markPaid` either credits the top-up and tells it, or changes nothing.
    pub mark_paid-Outcome :
        Outcome db
          (any (row_of provider p is_prepared) db.payments)
          (payment_paid p.id p.user_id provider p.amount (bonus_of p.amount db))
          paid_credit
          (mark_paid provider p txn payload fiscal perform_time doc db)
    mark_paid-Outcome = rw mark_paid_lem (elim (Bool-cases (provider_eq p.provider provider)) [
      | inr other ↦ rw other (unchanged refl (λ q. cc))
      | inl same ↦ elim (Bool-cases found_prepared) [
        | inr closed ↦ rw (same, closed) (unchanged refl (λ q. cc))
        | inl ready ↦ elim (Bool-cases (any (row_of provider p is_prepared) db.payments)) [
          | inr gone ↦ rw (same, ready, gone) (unchanged refl (λ q. cc))
          | inl hit ↦ elim (Bool-cases (txn_taken provider p.id txn db)) [
            | inl taken ↦ rw (same, ready, hit, taken) (unchanged refl (λ q. cc))
            | inr free ↦ rw (same, ready, hit, free) (told-Outcome db true _ paid_credit refl)
          ]
        ]
      ]
    ])

  module _ (reason : String) (error : Option String) (cancel_time : ℕ) where
    abbrev pub reversed_rows : Db
    reversed_rows = record db {
      payments =
          update_where (row_of provider p is_paid)
            (cancelled_row db.now cancel_time reason error none) db.payments;
    }

    abbrev pub reversal_debit : Result ℕ × Db
    reversal_debit =
        debit p.user_id (pos (p.amount + p.bonus_amount)) TxKind.refund (some p.id) no_audit
          reversed_rows

    -- `reverse` on every branch: another provider's payment raises; a row that is not paid answers
    -- false; otherwise the row is cancelled, amount and bonus are debited and the event written, or
    -- all of it is undone if the debit fails.
    pub reverse_lem : reverse provider p reason error cancel_time db ≡ (
        if not (provider_eq p.provider provider)
        then (err provider_mismatch, db)
        else if not (any (row_of provider p is_paid) db.payments)
        then (ok false, db)
        else told db
            (payment_reversed p.id p.user_id provider (p.amount + p.bonus_amount))
            (as_reversal reversal_debit))
    unfolding reverse
    reverse_lem = elim (Bool-cases (provider_eq p.provider provider)) [
      | inr e ↦ rw e
      | inl e ↦ elim (Bool-cases (any (row_of provider p is_paid) db.payments)) [
        | inr none_paid ↦ rw (e, none_paid, update_where-none _ _ _ none_paid)
        | inl found ↦ elim (Result-cases reversal_debit) [
          | inl (b, after, done) ↦ rw (e, found, done)
          | inr (x, after, refused) ↦ rw (e, found, refused) (ground arith)
        ]
      ]
    ]

    -- `reverse` either takes the top-up back and tells it, or changes nothing.
    pub reverse-Outcome :
        Outcome db
          (any (row_of provider p is_paid) db.payments)
          (payment_reversed p.id p.user_id provider (p.amount + p.bonus_amount))
          (as_reversal reversal_debit)
          (reverse provider p reason error cancel_time db)
    reverse-Outcome = rw reverse_lem (elim (Bool-cases (provider_eq p.provider provider)) [
      | inr other ↦ rw other (unchanged refl (λ q. cc))
      | inl same ↦ elim (Bool-cases (any (row_of provider p is_paid) db.payments)) [
        | inr gone ↦ rw (same, gone) (unchanged refl (λ q. cc))
        | inl hit ↦ rw (same, hit) (told-Outcome db true _ (as_reversal reversal_debit) refl)
      ]
    ])
