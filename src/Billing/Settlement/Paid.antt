-- ===== src/Billing/Settlement/Paid.antt =====
-- `markPaid` (payments.service.ts) credits a payment once, with its bonus, or changes nothing.
use qayoda_backend.Base.{ℕ, ◌≡◌, refl, Bool, true, Option, String, ◌∷◌, any, arith, if◌then◌else◌}
use qayoda_backend.Billing.Types.{PaymentProviderKind, FiscalStatus, Payment, Payload, BillingEvent}
use qayoda_backend.Billing.Store.{Db, Result, ok}
use qayoda_backend.Billing.Payments.{row_of, is_prepared, paid_row, mark_paid}
use qayoda_backend.Billing.Settlement.Invariant.{IsSound, IsSettled}
use qayoda_backend.Billing.Settlement.Snapshot.{IsSnapshot, Descends}
use qayoda_backend.Billing.Settlement.Effects.{Moves, credit_topup-Moves}
use qayoda_backend.Billing.Settlement.Moved.{IsSound-outbox, moved-IsSound}
use qayoda_backend.Billing.Settlement.Outcomes.{
  paid_rows, paid_credit, bonus_of, Outcome, through, unchanged, mark_paid-Outcome,
}

module _ (provider : PaymentProviderKind) (p : Payment) (txn : String) (payload : Payload)
    (fiscal : FiscalStatus) (perform_time : ℕ) (doc : Option String) (db : Db)
    (snap : IsSnapshot p db) (h : IsSound db) where
  abbrev bonus : ℕ
  bonus = bonus_of p.amount db

  abbrev test : Payment → Bool
  test = row_of provider p is_prepared

  abbrev mark : Payment → Payment
  mark = paid_row db.now bonus perform_time txn doc payload fiscal

  abbrev rows : Db
  rows = paid_rows provider p db txn payload fiscal perform_time doc

  IsSettled-row :
      (after : Db) (x : Payment)
      → Moves p.id p.amount bonus 0 rows after
      → IsSettled db.transactions x × (x.id ≡ p.id → Descends p x)
      → (x.id ≡ p.id → test x ≡ true)
      → IsSettled after.transactions (if test x then mark x else x)
  IsSettled-row after x m s only = ground (arith, m.tops x.id, m.bons x.id, m.revs x.id, only)

  paid_after :
      (b : ℕ) (after : Db)
      → any test db.payments ≡ true
      → paid_credit provider p db txn payload fiscal perform_time doc ≡ (ok b, after)
      → IsSound after
  paid_after b after hit done =
      let m = credit_topup-Moves p.user_id p.amount bonus p.id rows after b done in
      moved-IsSound test mark p.id p.amount bonus 0 db after (λ x e. ground arith) (λ x. refl) hit m
        h (λ x. x.id ≡ p.id → Descends p x) snap.row (λ x s only. IsSettled-row after x m s only)

  by-Outcome :
      (event : ℕ → BillingEvent) (r : Result Bool × Db)
      → Outcome db
          (any test db.payments)
          event
          (paid_credit provider p db txn payload fiscal perform_time doc)
          r
      → IsSound r.1
  by-Outcome event r (through b after hit done e) =
      rw e (IsSound-outbox after (event b ∷ after.outbox) (paid_after b after hit done))
  by-Outcome event r (unchanged e _) = rw e h

  -- `markPaid` keeps the ledger sound, whatever its outcome.
  pub mark_paid-IsSound : IsSound (mark_paid provider p txn payload fiscal perform_time doc db).1
  mark_paid-IsSound =
      by-Outcome _ _ (mark_paid-Outcome provider p db txn payload fiscal perform_time doc)
