-- ===== src/Billing/Settlement/Written.antt =====
-- What markPaid and reverse (billing/payments.service.ts) leave of the payment's row and of the ledger.
use qayoda_backend.Base.{
  ℕ, ◌+◌, ◌≡◌, ◌≢◌, refl, sym, ap, ◌∙◌, Bool, true, Option, none, some, String, List, [], ◌∷◌, ◌==◌,
  ==_iff, arith, All, any, any-find?, any-updated, find?, find?-All, find?-passes, find?-some_test,
  update_where, Bool-cases, inl, inr,
}
use qayoda_backend.Billing.Types.{
  PaymentProviderKind, Payment, PaymentStatus, Payload, FiscalStatus, payment_reversed, TxKind,
}
use qayoda_backend.Billing.Store.{Db, ok, Result}
use qayoda_backend.Billing.Payments.{
  mark_paid, reverse, row_of, is_prepared, is_paid, paid_row, cancelled_row, find_by_id,
}
use qayoda_backend.Billing.Wallet.{no_audit}
use qayoda_backend.Billing.Wallet.Ledger.{balance_of}
use qayoda_backend.Billing.Settlement.Invariant.{HasDistinctIds, topups, bonuses, reversals}
use qayoda_backend.Billing.Settlement.Rows.{update_one-All}
use qayoda_backend.Billing.Settlement.Effects.{
  credit_topup-Moves, reversal-Moves, debit-eq_ok, as_reversal-eq_ok,
}
use qayoda_backend.Billing.Settlement.Outcomes.{
  bonus_of, paid_rows, reversed_rows, through, unchanged, mark_paid-Outcome, reverse-Outcome,
}

every_row : (xs : List Payment) → All (λ (_ : Payment). Unit {0}) xs
every_row [] = tt
every_row (x ∷ xs) = (tt, every_row xs)

-- The one row that an update changes is the one that is found by its key then.
changed_row :
    (t : Payment → Bool) (f : Payment → Payment) (id : ℕ) (rows : List Payment)
    → ((x : Payment) → t x ≡ true → x.id ≡ id)
    → ((x : Payment) → (f x).id ≡ x.id)
    → HasDistinctIds rows
    → any t rows ≡ true
    → (x : Payment) × (find? (λ q. q.id == id) (update_where t f rows) ≡ some (f x))
changed_row t f id rows only same distinct hit =
    let there = any-find? t rows hit in
    let own : there.0.id ≡ id = only there.0 (find?-some_test t rows there.0 there.1) in
    let before =
      find?-passes t (λ q. q.id == id) rows there.0 there.1 ((==_iff there.0.id id).1 own) in
    let after =
      any-find? (λ q. q.id == id) (update_where t f rows)
        (any-updated (λ q. q.id == id) t f rows (λ x h. (==_iff (f x).id id).1 (same x ∙ only x h))
          before) in
    let every =
      update_one-All t f id (λ _. Unit {0}) (λ q. q.id ≡ id → (x : Payment) × (q ≡ f x)) rows only
        (λ x _ mine. elim (Bool-cases (t x)) [
          | inl change ↦ rw change (λ _. (x, refl))
          | inr keep ↦ rw keep (λ key. absurd (cc (sym (mine key) ∙ keep)))
        ])
        distinct hit (every_row rows) in
    let last =
      find?-All (λ q. q.id ≡ id → (x : Payment) × (q ≡ f x)) (λ q. q.id == id)
        (update_where t f rows) after.0 every after.1
        ((==_iff after.0.id id).0
          (find?-some_test (λ q. q.id == id) (update_where t f rows) after.0 after.1)) in
    (last.0, after.1 ∙ ap some last.1)

module _ (provider : PaymentProviderKind) (p : Payment) (db db' : Db) where
  -- The row of a payment that has just been marked as paid, and its entries in the ledger.
  pub record IsMarked (txn : String) (fiscal : FiscalStatus) (perform_time : ℕ) (q : Payment)
      : Type 0 where
    pub found : find_by_id p.id db' ≡ some q
    pub status : q.status ≡ PaymentStatus.paid
    pub bonus : q.bonus_amount ≡ bonus_of p.amount db
    pub reference : q.provider_txn_id ≡ some txn
    pub performed : q.provider_perform_time ≡ some perform_time
    pub receipt : q.fiscal_status ≡ fiscal
    pub topped : topups p.id db'.transactions ≡ p.amount + topups p.id db.transactions
    pub bonused :
        bonuses p.id db'.transactions ≡ bonus_of p.amount db + bonuses p.id db.transactions

  -- When `markPaid` returns true on a table with distinct keys, the row of the payment is paid, with
  -- the bonus, the reference, the time of performance and the state of its receipt that the call
  -- gives, and the ledger has the amount as a top-up and the bonus as a bonus of this payment.
  pub mark_paid-IsMarked :
      (txn : String) (payload : Payload) (fiscal : FiscalStatus) (perform_time : ℕ)
      (doc : Option String)
      → HasDistinctIds db.payments
      → mark_paid provider p txn payload fiscal perform_time doc db ≡ (ok true, db')
      → (q : Payment) × IsMarked txn fiscal perform_time q
  unfolding find_by_id
  mark_paid-IsMarked txn payload fiscal perform_time doc distinct done =
      elim (mark_paid-Outcome provider p db txn payload fiscal perform_time doc) [
        | unchanged e ne ↦ absurd (ne (rw done))
        | through b after hit credited e ↦
            let rows = paid_rows provider p db txn payload fiscal perform_time doc in
            let mark = paid_row db.now (bonus_of p.amount db) perform_time txn doc payload fiscal in
            let m =
              credit_topup-Moves p.user_id p.amount (bonus_of p.amount db) p.id rows after b
                credited in
            let same = ap (λ (r : Result Bool × Db). r.1) (sym done ∙ e) in
            let row =
              changed_row (row_of provider p is_prepared) mark p.id db.payments
                (λ x t. ground arith) (λ x. refl) distinct hit in
            (
              mark row.0,
              record {
                found = rw (same, m.same_payments) row.1;
                status = refl;
                bonus = refl;
                reference = refl;
                performed = refl;
                receipt = refl;
                topped = rw same (ground (arith, m.tops p.id));
                bonused = rw same (ground (arith, m.bons p.id));
              },
            )
      ]

  -- The row of a payment that has just been taken back, and the money.
  pub record IsTakenBack (reason : String) (error : Option String) (cancel_time : ℕ) (q : Payment)
      : Type 0 where
    pub found : find_by_id p.id db' ≡ some q
    pub status : q.status ≡ PaymentStatus.cancelled
    pub why : q.cancel_reason ≡ some reason
    pub error_code : q.provider_error ≡ error
    pub cancelled_time : q.provider_cancel_time ≡ some cancel_time
    pub taken : balance_of p.user_id db' + (p.amount + p.bonus_amount) ≡ balance_of p.user_id db
    pub others : (v : ℕ) → v ≢ p.user_id → db'.wallets v ≡ db.wallets v
    pub booked :
        reversals p.id db'.transactions ≡ p.amount + p.bonus_amount + reversals p.id db.transactions
    pub event :
        db'.outbox
        ≡ payment_reversed p.id p.user_id provider
            (p.amount + p.bonus_amount)
            (balance_of p.user_id db')
          ∷ db.outbox

  -- When `reverse` returns true on a table with distinct keys, the row of the payment is cancelled
  -- with the reason, error and time of the call, amount and bonus have left the user's balance and
  -- stand in the ledger as its reversal, no other wallet changes, and one event is written, which
  -- names the new balance.
  pub reverse-IsTakenBack :
      (reason : String) (error : Option String) (cancel_time : ℕ)
      → HasDistinctIds db.payments
      → reverse provider p reason error cancel_time db ≡ (ok true, db')
      → (q : Payment) × IsTakenBack reason error cancel_time q
  unfolding find_by_id
  reverse-IsTakenBack reason error cancel_time distinct done =
      elim (reverse-Outcome provider p db reason error cancel_time) [
        | unchanged e ne ↦ absurd (ne (rw done))
        | through b after hit debited e ↦
            let rows = reversed_rows provider p db reason error cancel_time in
            let total = p.amount + p.bonus_amount in
            let paid_back = as_reversal-eq_ok _ b after debited in
            let m = reversal-Moves p.user_id total p.id rows after b paid_back in
            let w =
              debit-eq_ok p.user_id total TxKind.refund (some p.id) no_audit rows after b
                paid_back in
            let same = ap (λ (r : Result Bool × Db). r.1) (sym done ∙ e) in
            let mark = cancelled_row db.now cancel_time reason error none in
            let row =
              changed_row (row_of provider p is_paid) mark p.id db.payments (λ x t. ground arith)
                (λ x. refl) distinct hit in
            (
              mark row.0,
              record {
                found = rw (same, m.same_payments) row.1;
                status = refl;
                why = refl;
                error_code = refl;
                cancelled_time = refl;
                taken = rw same (ground (arith, w.0, w.1));
                others = λ v ne. rw same (ground (arith, w.0));
                booked = rw same (ground (arith, m.revs p.id));
                event = rw same (ground (arith, w.0, m.same_outbox));
              },
            )
      ]
