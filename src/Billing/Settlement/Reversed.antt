-- ===== src/Billing/Settlement/Reversed.antt =====
-- `reverse` (payments.service.ts) takes a payment and its bonus back once, or changes nothing.
use qayoda_backend.Base.{
  ℕ, ◌+◌, ◌≡◌, refl, Bool, true, Option, none, String, ◌∷◌, any, arith, if◌then◌else◌,
}
use qayoda_backend.Billing.Types.{PaymentProviderKind, Payment, paid, BillingEvent}
use qayoda_backend.Billing.Store.{Db, Result, ok}
use qayoda_backend.Billing.Payments.{row_of, is_paid, cancelled_row, as_reversal, reverse}
use qayoda_backend.Billing.Settlement.Invariant.{IsSound, IsSettled}
use qayoda_backend.Billing.Settlement.Snapshot.{IsSnapshot, Descends}
use qayoda_backend.Billing.Settlement.Effects.{Moves, reversal-Moves, as_reversal-eq_ok}
use qayoda_backend.Billing.Settlement.Moved.{IsSound-outbox, moved-IsSound}
use qayoda_backend.Billing.Settlement.Outcomes.{
  reversed_rows, reversal_debit, Outcome, through, unchanged, reverse-Outcome,
}

module _ (provider : PaymentProviderKind) (p : Payment) (reason : String) (error : Option String)
    (cancel_time : ℕ) (db : Db) (seen_paid : p.status ≡ paid) (snap : IsSnapshot p db)
    (h : IsSound db) where
  abbrev test : Payment → Bool
  test = row_of provider p is_paid

  abbrev mark : Payment → Payment
  mark = cancelled_row db.now cancel_time reason error none

  abbrev rows : Db
  rows = reversed_rows provider p db reason error cancel_time

  IsSettled-row :
      (after : Db) (x : Payment)
      → Moves p.id 0 0 (p.amount + p.bonus_amount) rows after
      → IsSettled db.transactions x × (x.id ≡ p.id → Descends p x)
      → (x.id ≡ p.id → test x ≡ true)
      → IsSettled after.transactions (if test x then mark x else x)
  IsSettled-row after x m s only = ground (arith, m.tops x.id, m.bons x.id, m.revs x.id, only)

  reversed_after :
      (b : ℕ) (after : Db)
      → any test db.payments ≡ true
      → reversal_debit provider p db reason error cancel_time ≡ (ok b, after)
      → IsSound after
  reversed_after b after hit done =
      let m = reversal-Moves p.user_id (p.amount + p.bonus_amount) p.id rows after b done in
      moved-IsSound test mark p.id 0 0 (p.amount + p.bonus_amount) db after (λ x e. ground arith)
        (λ x. refl) hit m h (λ x. x.id ≡ p.id → Descends p x) snap.row
        (λ x s only. IsSettled-row after x m s only)

  by-Outcome :
      (event : ℕ → BillingEvent) (r : Result Bool × Db)
      → Outcome db
          (any test db.payments)
          event
          (as_reversal (reversal_debit provider p db reason error cancel_time))
          r
      → IsSound r.1
  by-Outcome event r (through b after hit done e) = rw e (
      IsSound-outbox after (event b ∷ after.outbox)
        (reversed_after b after hit (as_reversal-eq_ok _ b after done)))
  by-Outcome event r (unchanged e _) = rw e h

  -- `reverse` keeps the ledger sound, whatever its outcome.
  pub reverse-IsSound : IsSound (reverse provider p reason error cancel_time db).1
  reverse-IsSound = by-Outcome _ _ (reverse-Outcome provider p db reason error cancel_time)
