-- ===== src/Billing/Lifecycle/Once.antt =====
-- A retried or concurrent callback never applies twice (`markPaid` of billing/payments.service.ts).
use qayoda_backend.Base.{
  find?-All, ℕ, ◌+◌, ◌≡◌, ◌≢◌, sym, ap, ◌∙◌, Bool, true, false, Option, String, ◌∷◌, arith, find?,
  Option-cases, inl, inr, find?-some_test,
}
use qayoda_backend.Billing.Types.{PaymentProviderKind, Payment, Payload, FiscalStatus, payment_paid}
use qayoda_backend.Billing.Store.{Db, ok, Result}
use qayoda_backend.Billing.Payments.{mark_paid, row_of, is_prepared, paid_row}
use qayoda_backend.Billing.Wallet.Ledger.{balance_of}
use qayoda_backend.Billing.Settlement.Invariant.{IsSound}
use qayoda_backend.Billing.Settlement.Snapshot.{Descends, IsSnapshot}
use qayoda_backend.Billing.Settlement.Rows.{update_one-All}
use qayoda_backend.Billing.Settlement.Effects.{credit_topup-Moves, credit_topup-balance}
use qayoda_backend.Billing.Settlement.Outcomes.{
  provider_eq_of, bonus_of, paid_rows, through, unchanged, mark_paid-Outcome, mark_paid_lem,
}
use qayoda_backend.Billing.Lifecycle.Steps.{Reach}
use qayoda_backend.Billing.Lifecycle.Reachable.{Reach-IsSnapshot}

module _ (provider : PaymentProviderKind) (p : Payment) (txn : String) (payload : Payload)
    (fiscal : FiscalStatus) (perform_time : ℕ) (doc : Option String) (db db' : Db)
    (done : mark_paid provider p txn payload fiscal perform_time doc db ≡ (ok true, db')) where
  abbrev mark : Payment → Payment
  mark = paid_row db.now (bonus_of p.amount db) perform_time txn doc payload fiscal

  -- When `markPaid` returns true, the balance of the payment's user has the amount and its bonus
  -- added, no other wallet changes, and one event is written, which names the new balance.
  pub mark_paid-credits :
      (balance_of p.user_id db' ≡ balance_of p.user_id db + p.amount + bonus_of p.amount db)
      × ((v : ℕ) → v ≢ p.user_id → db'.wallets v ≡ db.wallets v)
      × (db'.outbox
          ≡ payment_paid p.id p.user_id provider p.amount
              (bonus_of p.amount db)
              (balance_of p.user_id db')
            ∷ db.outbox)
  mark_paid-credits = elim (mark_paid-Outcome provider p db txn payload fiscal perform_time doc) [
    | unchanged e ne ↦ absurd (ne (rw done))
    | through b after hit credited e ↦
        let m =
          credit_topup-Moves p.user_id p.amount (bonus_of p.amount db) p.id
            (paid_rows provider p db txn payload fiscal perform_time doc) after b credited in
        let w =
          credit_topup-balance p.user_id p.amount (bonus_of p.amount db) p.id
            (paid_rows provider p db txn payload fiscal perform_time doc) after b credited in
        let same = ap (λ (r : Result Bool × Db). r.1) (sym done ∙ e) in
        rw same (ground (arith, w.0, w.1), w.2, rw (w.1, m.same_outbox))
  ]

  -- The row as it was marked is a snapshot of the new state.
  marked-IsSnapshot : IsSnapshot p db → IsSound db → IsSnapshot (mark p) db'
  marked-IsSnapshot snap h =
      elim (mark_paid-Outcome provider p db txn payload fiscal perform_time doc) [
        | unchanged e ne ↦ absurd (ne (rw done))
        | through b after hit credited e ↦
            let m =
              credit_topup-Moves p.user_id p.amount (bonus_of p.amount db) p.id
                (paid_rows provider p db txn payload fiscal perform_time doc) after b credited in
            let same = ap (λ (r : Result Bool × Db). r.1) (sym done ∙ e) in
            rw same record {
              known = omega (arith, snap.known, m.grows);
              row = rw m.same_payments (
                  update_one-All (row_of provider p is_prepared) mark p.id
                    (λ x. x.id ≡ p.id → Descends p x) (λ x. x.id ≡ p.id → Descends (mark p) x)
                    db.payments (λ x t. ground arith)
                    (λ x d only k.
                      let same_key : x.id ≡ p.id = ground arith in
                      ground (arith, d same_key, only same_key))
                    h.distinct hit snap.row);
            }
      ]

  -- Once `markPaid` has returned true, called in a sound state with a payment of its provider that
  -- was read before, every later call for that payment, after any steps in between, returns false
  -- and changes nothing.
  pub mark_paid-once :
      {t : Db} (txn' : String) (payload' : Payload) (fiscal' : FiscalStatus) (perform_time' : ℕ)
      (doc' : Option String)
      → p.provider ≡ provider
      → IsSnapshot p db
      → IsSound db
      → Reach db' t
      → mark_paid provider p txn' payload' fiscal' perform_time' doc' t ≡ (ok false, t)
  mark_paid-once {t} txn' payload' fiscal' perform_time' doc' own snap h r =
      let k = Reach-IsSnapshot (mark p) r (marked-IsSnapshot snap h) in
      elim (Option-cases (find? (row_of provider p (λ _. true)) t.payments)) [
        | inl absent ↦ rw (
          mark_paid_lem provider p t txn' payload' fiscal' perform_time' doc',
          provider_eq_of own,
          absent,
        )
        | inr (q, found) ↦
            let d =
              find?-All (λ x. x.id ≡ p.id → Descends (mark p) x) (row_of provider p (λ _. true))
                t.payments q k.row found in
            let hit = find?-some_test (row_of provider p (λ _. true)) t.payments q found in
            let settled : is_prepared q.status ≡ false = ground (arith, d) in
            rw (
              mark_paid_lem provider p t txn' payload' fiscal' perform_time' doc',
              provider_eq_of own,
              found,
              settled,
            )
      ]
