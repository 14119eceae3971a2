-- ===== src/Billing/Repeated/Reversals.antt =====
-- A reversal whose money is spent (`reverse` of billing/payments.service.ts).
use qayoda_backend.Base.{
  ℕ, ◌+◌, ◌≤◌, ◌<◌, ◌≡◌, refl, true, false, Option, String, any, arith, leb, ltb, ◌==◌, ◌||◌,
}
use qayoda_backend.Billing.Types.{Payment, PaymentProviderKind, max_safe_integer}
use qayoda_backend.Billing.Store.{Db, err, reversal_not_possible}
use qayoda_backend.Billing.Wallet.Ledger.{balance_of, debit_lem}
use qayoda_backend.Billing.Payments.{reverse, row_of, is_paid}
use qayoda_backend.Billing.Settlement.Outcomes.{provider_eq_of, reverse_lem}

module _ (provider : PaymentProviderKind) (p : Payment) (db : Db) (reason : String)
    (error : Option String) (cancel_time : ℕ) where
  -- A paid payment of the caller's provider, of which the user has spent a part, is not reversed:
  -- the call raises ReversalNotPossibleError, and nothing is written. Its total is a safe integer.
  pub reverse-spent :
      p.provider ≡ provider
      → any (row_of provider p is_paid) db.payments ≡ true
      → p.amount + p.bonus_amount ≤ max_safe_integer
      → balance_of p.user_id db < p.amount + p.bonus_amount
      → reverse provider p reason error cancel_time db ≡ (err reversal_not_possible, db)
  reverse-spent own paid fits spent =
      let valid : (p.amount + p.bonus_amount == 0
            || ltb max_safe_integer (p.amount + p.bonus_amount))
          ≡ false =
        ground arith in
      let short : leb (p.amount + p.bonus_amount) (balance_of p.user_id db) ≡ false =
        ground arith in
      rw (reverse_lem, provider_eq_of own, paid, debit_lem, valid, short) refl
