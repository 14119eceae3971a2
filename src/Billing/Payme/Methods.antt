-- ===== src/Billing/Payme/Methods.antt =====
-- PaymeProvider (billing/providers/payme/payme.provider.ts): the six methods and their dispatch.
-- `c` is the FISCAL_* configuration; `Date.now()` is the clock of the state.
use Prim.Native.String.{◌++◌}
use qayoda_backend.Base.{
  ℕ, suc, ◌+◌, Bool, true, false, not, Option, none, some, String, ltb, if◌then◌else◌, or_default,
  str_eq, pos, eqb_ℤ,
}
use qayoda_backend.Billing.Types.{
  Payment, PaymentStatus, payme, FiscalStatus, by_provider, payme_order, status_eq, body,
}
use qayoda_backend.Billing.Store.{
  Db, Result, Action, ok, err, ◌>>=◌, ◌>>◌, pure, gets, or_raise, reversal_not_possible, no_row,
}
use qayoda_backend.Billing.Payments.{
  is_open, find_by_merchant_ref, find_by_provider_txn, mark_prepared, mark_paid, cancel, reverse,
}
use qayoda_backend.Billing.Fiscal.{FiscalConfig, enabled, topup_line}
use qayoda_backend.Billing.Json.{Value, number_of}
use qayoda_backend.Billing.Payme.Protocol.{
  PaymeParams, PaymeReply, fail, allow, opened, done, status, as_ref, status_of, expired,
  create_result, perform_result, cancel_result, bad_request, bad_amount, txn_not_found,
  cannot_cancel, cannot_perform, order_not_found, order_not_available, payme_timeout_ms,
}

-- `Number(p.amount) === toTiyin(payment.amount)`
abbrev pub is_amount : Value → Payment → Bool
is_amount v p = elim (number_of v) [ none ↦ false | some n ↦ eqb_ℤ n (pos p.amount) ]

-- The receipt's line is built only where the receipts are configured.
abbrev fiscal_detail : FiscalConfig → Payment → Action PaymeReply
fiscal_detail c p =
    if enabled c
    then (do line ← or_raise (topup_line c p.amount) no_row; pure (allow (some line)))
    else pure (allow none)

unfoldable pub check_perform : FiscalConfig → PaymeParams → Action PaymeReply
check_perform c p = do
  found ← gets (find_by_merchant_ref payme (as_ref p.payment_id))
  elim found [
    | none ↦ pure (fail order_not_found)
    | some payment ↦
        if not (is_open payment.status)
        then pure (fail order_not_available)
        else if not (is_amount p.amount payment)
        then pure (fail bad_amount)
        else fiscal_detail c payment
  ]

-- The time of a transaction, which must be a number above 0.
abbrev pub payme_time : Value → Option ℕ
payme_time v = elim (number_of v) [
  | none ↦ none
  | some (pos (suc n)) ↦ some (suc n)
  | some _ ↦ none
]

-- An unperformed transaction that is over its 12 hours is cancelled.
abbrev pub time_out : Payment → Action PaymeReply
time_out x = do
  now ← gets (λ db. db.now)
  cancel payme x "timeout" (some "4") none now >> pure (fail cannot_perform)

-- `create`, for a transaction that has been seen before.
unfoldable pub create_again : Payment → Action PaymeReply
create_again x = do
  now ← gets (λ db. db.now)
  if not (status_eq x.status PaymentStatus.prepared)
      then pure (fail cannot_perform)
      else if expired now x
      then time_out x
      else pure (create_result x)

-- `create`, for a new transaction on the order that was read.
unfoldable pub create_first : String → ℕ → Value → Payment → Action PaymeReply
create_first txn time amount x =
    if not (is_amount amount x)
    then pure (fail bad_amount)
    else if not (status_eq x.status PaymentStatus.created)
    then pure (fail order_not_available)
    else (do
      now ← gets (λ db. db.now)
      marked ← mark_prepared payme x txn (payme_order txn time) now none
      pure (if marked then opened now x.id else fail order_not_available))

unfoldable pub create : PaymeParams → Action PaymeReply
unfolding create_again create_first
create p = do
  now ← gets (λ db. db.now)
  existing ← gets (find_by_provider_txn payme (or_default (as_ref p.id) ""))
  order ← gets (find_by_merchant_ref payme (as_ref p.payment_id))
  if str_eq (or_default (as_ref p.id) "") ""
      then pure (fail bad_request)
      else elim (payme_time p.time) [
        | none ↦ pure (fail bad_request)
        | some time ↦
            if ltb (time + payme_timeout_ms) now
            then pure (fail cannot_perform)
            else elim existing [
              | some x ↦ create_again x
              | none ↦ elim order [
                | none ↦ pure (fail order_not_found)
                | some x ↦ create_first (or_default (as_ref p.id) "") time p.amount x
              ]
            ]
      ]

-- `fresh`: the payment as it was marked, or as it is read again.
unfoldable pub fresh_result : ℕ → Payment → Bool → Action PaymeReply
fresh_result perform_time x true = pure (done perform_time x.id)
fresh_result perform_time x false = do
  fresh ← gets (find_by_provider_txn payme (or_default x.provider_txn_id ""))
  y ← or_raise fresh no_row
  pure (perform_result y)

-- `perform`, once the payment is read.
unfoldable pub perform_read : FiscalConfig → Payment → Action PaymeReply
perform_read c x = do
  now ← gets (λ db. db.now)
  if status_eq x.status PaymentStatus.paid
      then pure (perform_result x)
      else if status_eq x.status PaymentStatus.cancelled
      then pure (fail cannot_perform)
      else if expired now x
      then time_out x
      else (do
        marked ←
            mark_paid payme x (or_default x.provider_txn_id "") (or_default x.provider_payload body)
              (if enabled c then by_provider else FiscalStatus.none) now none
        fresh_result now x marked)

unfoldable pub perform : FiscalConfig → PaymeParams → Action PaymeReply
perform c p = do
  found ← gets (find_by_provider_txn payme (or_default (as_ref p.id) ""))
  elim found [ none ↦ pure (fail txn_not_found) | some x ↦ perform_read c x ]

-- `catch`: a reversal that is not possible is an answer, any other failure is raised again.
abbrev pub or_cannot_cancel : Result PaymeReply × Db → Result PaymeReply × Db
or_cannot_cancel (err reversal_not_possible, db) = (ok (fail cannot_cancel), db)
or_cannot_cancel (r, db) = (r, db)

-- `cancelTxn`, once the payment is read.
unfoldable pub cancel_read : String → Payment → Action PaymeReply
cancel_read reason x = do
  now ← gets (λ db. db.now)
  elim x.status [
    | PaymentStatus.cancelled ↦ pure (cancel_result x)
    | PaymentStatus.prepared ↦
        cancel payme x "provider_cancel" (some reason) none now
        >> pure (
            cancel_result record x {
              status = PaymentStatus.cancelled;
              provider_cancel_time = some now;
              provider_error = some reason;
            })
    | PaymentStatus.created ↦ pure (fail txn_not_found)
    | PaymentStatus.paid ↦ λ db. or_cannot_cancel (
        (reverse payme x ("payme:" ++ reason) (some reason) now
            >> gets (λ db.
              cancel_result
                (or_default (find_by_provider_txn payme (or_default x.provider_txn_id "") db) x)))
          db)
  ]

unfoldable pub cancel_txn : PaymeParams → Action PaymeReply
cancel_txn p = do
  found ← gets (find_by_provider_txn payme (or_default (as_ref p.id) ""))
  elim found [
    | none ↦ pure (fail txn_not_found)
    | some x ↦ cancel_read (or_default (as_ref p.reason) "") x
  ]

unfoldable pub check : PaymeParams → Action PaymeReply
check p = do
  found ← gets (find_by_provider_txn payme (or_default (as_ref p.id) ""))
  pure (elim found [ none ↦ fail txn_not_found | some x ↦ status (status_of x) ])
