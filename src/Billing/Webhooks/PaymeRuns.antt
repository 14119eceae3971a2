-- ===== src/Billing/Webhooks/PaymeRuns.antt =====
-- What Payme's methods (billing/providers/payme/payme.provider.ts) may do to the database.
use qayoda_backend.Base.{
  ℕ, ◌+◌, ◌≡◌, refl, Bool, true, false, none, some, String, Bool-cases, Option-cases, ◌⊎◌, inl, inr,
  arith, or_default, str_eq, ltb, eq_iff,
}
use qayoda_backend.Billing.Types.{Payment, PaymentStatus, payme, status_eq}
use qayoda_backend.Billing.Store.{Db, Result}
use qayoda_backend.Billing.Payments.{find_by_provider_txn, find_by_merchant_ref}
use qayoda_backend.Billing.Fiscal.{FiscalConfig}
use qayoda_backend.Billing.Payme.{
  PaymeParams, PaymeReply, as_ref, expired, time_out, create_again, create_first, create,
  payme_time, fresh_result, perform_read, perform, cancel_read, cancel_txn, or_cannot_cancel,
  is_amount, payme_timeout_ms,
}
use qayoda_backend.Billing.Webhooks.Runs.{step-at}
use qayoda_backend.Billing.Webhooks.PaymeEffects.{
  PaymeEffect, quiet, prepares, times_out, pays, withdraws, takes_back, txn_of, amount-eq, time-eq,
}

status-cases :
    (s : PaymentStatus)
    → (s ≡ PaymentStatus.cancelled)
      ⊎ ((s ≡ PaymentStatus.prepared) ⊎ ((s ≡ PaymentStatus.created) ⊎ (s ≡ PaymentStatus.paid)))
status-cases s = ground arith

fresh_result-still :
    (time : ℕ) (x : Payment) (marked : Bool) (db : Db) → (fresh_result time x marked db).1 ≡ db
unfolding fresh_result
fresh_result-still time x true db = refl
fresh_result-still time x false db =
    elim (Option-cases (find_by_provider_txn payme (or_default x.provider_txn_id "") db)) [
      | inl absent ↦ rw absent refl
      | inr (y, found) ↦ rw found refl
    ]

or_cannot_cancel-still : (r : Result PaymeReply × Db) → (or_cannot_cancel r).1 ≡ r.1
or_cannot_cancel-still r = ground arith

module _ (c : FiscalConfig) (method : String) (p : PaymeParams) (db : Db) where
  abbrev Effect : Db → Type 0
  Effect = PaymeEffect c method p db

  time_out-Effect :
      (x : Payment)
      → (method ≡ "CreateTransaction") ⊎ (method ≡ "PerformTransaction")
      → find_by_provider_txn payme (txn_of p) db ≡ some x
      → status_eq x.status PaymentStatus.paid ≡ false
      → status_eq x.status PaymentStatus.cancelled ≡ false
      → expired db.now x ≡ true
      → Effect (time_out x db).1
  unfolding expired
  time_out-Effect x m found unpaid standing late =
      step-at Effect _ _ (times_out x m found (ground arith) (ground arith) (ground arith))
        (λ a t. refl)

  create_again-Effect :
      (x : Payment)
      → method ≡ "CreateTransaction"
      → find_by_provider_txn payme (txn_of p) db ≡ some x
      → Effect (create_again x db).1
  unfolding create_again
  create_again-Effect x m found = elim (Bool-cases (status_eq x.status PaymentStatus.prepared)) [
    | inr closed ↦ rw closed quiet
    | inl open_still ↦ elim (Bool-cases (expired db.now x)) [
      | inl late ↦
          rw (open_still, late) (time_out-Effect x (inl m) found (ground arith) (ground arith) late)
      | inr in_time ↦ rw (open_still, in_time) quiet
    ]
  ]

  create_first-Effect :
      (time : ℕ) (x : Payment)
      → method ≡ "CreateTransaction"
      → str_eq (txn_of p) "" ≡ false
      → find_by_provider_txn payme (txn_of p) db ≡ none
      → find_by_merchant_ref payme (as_ref p.payment_id) db ≡ some x
      → payme_time p.time ≡ some time
      → ltb (time + payme_timeout_ms) db.now ≡ false
      → Effect (create_first (txn_of p) time p.amount x db).1
  unfolding create_first
  create_first-Effect time x m named absent found given fresh =
      elim (Bool-cases (is_amount p.amount x)) [
        | inr other ↦ rw other quiet
        | inl same ↦ elim (Bool-cases (status_eq x.status PaymentStatus.created)) [
          | inr busy ↦ rw (same, busy) quiet
          | inl new ↦
              rw (same, new)
                (step-at Effect _ _
                  (prepares x time m (λ blank. absurd (cc ((eq_iff (txn_of p) "").1 blank))) absent
                    found (amount-eq p.amount x same) (ground arith) (time-eq p.time time given)
                    (ground arith))
                  (λ a t. refl))
        ]
      ]

  pub create-Effect : method ≡ "CreateTransaction" → Effect (create p db).1
  unfolding create
  create-Effect m = elim (Bool-cases (str_eq (txn_of p) "")) [
    | inl blank ↦ rw blank quiet
    | inr named ↦ elim (Option-cases (payme_time p.time)) [
      | inl absent ↦ rw (named, absent) quiet
      | inr (time, given) ↦ elim (Bool-cases (ltb (time + payme_timeout_ms) db.now)) [
        | inl late ↦ rw (named, given, late) quiet
        | inr fresh ↦ elim (Option-cases (find_by_provider_txn payme (txn_of p) db)) [
          | inr (x, found) ↦ rw (named, given, fresh, found) (create_again-Effect x m found)
          | inl absent ↦ elim (Option-cases (find_by_merchant_ref payme (as_ref p.payment_id) db)) [
            | inl unknown ↦ rw (named, given, fresh, absent, unknown) quiet
            | inr (x, found) ↦
                rw (named, given, fresh, absent, found)
                  (create_first-Effect time x m named absent found given fresh)
          ]
        ]
      ]
    ]
  ]

  perform_read-Effect :
      (x : Payment)
      → method ≡ "PerformTransaction"
      → find_by_provider_txn payme (txn_of p) db ≡ some x
      → Effect (perform_read c x db).1
  unfolding perform_read expired
  perform_read-Effect x m found = elim (Bool-cases (status_eq x.status PaymentStatus.paid)) [
    | inl done ↦ rw done quiet
    | inr unpaid ↦ elim (Bool-cases (status_eq x.status PaymentStatus.cancelled)) [
      | inl gone ↦ rw (unpaid, gone) quiet
      | inr standing ↦ elim (Bool-cases (expired db.now x)) [
        | inl late ↦
            rw (unpaid, standing, late) (time_out-Effect x (inr m) found unpaid standing late)
        | inr in_time ↦
            rw (unpaid, standing, in_time)
              (step-at Effect _ _ (pays x m found (ground arith) (ground arith) (ground arith))
                (fresh_result-still db.now x))
      ]
    ]
  ]

  pub perform-Effect : method ≡ "PerformTransaction" → Effect (perform c p db).1
  unfolding perform
  perform-Effect m = elim (Option-cases (find_by_provider_txn payme (txn_of p) db)) [
    | inl absent ↦ rw absent quiet
    | inr (x, found) ↦ rw found (perform_read-Effect x m found)
  ]

  cancel_read-Effect :
      (x : Payment)
      → method ≡ "CancelTransaction"
      → find_by_provider_txn payme (txn_of p) db ≡ some x
      → Effect (cancel_read (or_default (as_ref p.reason) "") x db).1
  unfolding cancel_read
  cancel_read-Effect x m found = elim (status-cases x.status) [
    | inl gone ↦ rw gone quiet
    | inr (inl ready) ↦ rw ready (step-at Effect _ _ (withdraws x m found ready) (λ a t. refl))
    | inr (inr (inl new)) ↦ rw new quiet
    | inr (inr (inr done)) ↦
        rw (done, or_cannot_cancel-still)
          (step-at Effect _ _ (takes_back x m found done) (λ a t. refl))
  ]

  pub cancel_txn-Effect : method ≡ "CancelTransaction" → Effect (cancel_txn p db).1
  unfolding cancel_txn
  cancel_txn-Effect m = elim (Option-cases (find_by_provider_txn payme (txn_of p) db)) [
    | inl absent ↦ rw absent quiet
    | inr (x, found) ↦ rw found (cancel_read-Effect x m found)
  ]
