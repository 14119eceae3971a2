-- ===== src/Billing/Webhooks/Answers.antt =====
-- The answers of Payme and Paynet to a call that comes again (billing/providers).
use qayoda_backend.Base.{
  ◌≡◌, refl, Bool, true, some, if◌then◌else◌, find?, find?-some_test, ==_iff, Bool-cases, inl, inr,
  arith,
}
use qayoda_backend.Billing.Types.{Payment, PaymentStatus, status_eq}
use qayoda_backend.Billing.Store.{Db, ok}
use qayoda_backend.Billing.Payments.{find_by_id}
use qayoda_backend.Billing.Fiscal.{FiscalConfig}
use qayoda_backend.Billing.Payme.{perform_read, perform_result, fail, cannot_perform}
use qayoda_backend.Billing.Settlement.Invariant.{IsSound}
use qayoda_backend.Billing.Lifecycle.Steps.{Reach}
use qayoda_backend.Billing.Lifecycle.Reachable.{Reach-Descends}

-- A PerformTransaction for a payment that was paid when it was read in a sound state is answered,
-- after any steps, as it was then, or that it cannot be performed if it has been cancelled; it
-- changes nothing.
pub payme-perform_again :
    (c : FiscalConfig) {s t : Db} (test : Payment → Bool) (x y : Payment)
    → IsSound s
    → find? test s.payments ≡ some x
    → x.status ≡ PaymentStatus.paid
    → Reach s t
    → find_by_id x.id t ≡ some y
    → perform_read c y t ≡ (
      ok (if status_eq y.status PaymentStatus.paid then perform_result x else fail cannot_perform),
      t,
    )
unfolding perform_read perform_result find_by_id
payme-perform_again c {t} test x y h e done r f =
    let d = Reach-Descends test x y h e r f in
    let same : y.id ≡ x.id = (==_iff y.id x.id).0 (find?-some_test _ t.payments y f) in
    elim (Bool-cases (status_eq y.status PaymentStatus.paid)) [
      | inl paid ↦
          let time : y.provider_perform_time ≡ x.provider_perform_time =
            ground (arith, d.final_time) in
          rw (paid, time, same) refl
      | inr other ↦
          let gone : status_eq y.status PaymentStatus.cancelled ≡ true =
            ground (arith, d.onwards) in
          rw (other, gone) refl
    ]
