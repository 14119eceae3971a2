-- ===== src/Billing/Paynet/Methods.antt =====
-- PaynetProvider (billing/providers/paynet/paynet.provider.ts): the methods and their dispatch.
use qayoda_backend.Base.{
  ℕ, ◌*◌, not, ◌||◌, Option, none, some, String, [], ltb, if◌then◌else◌, is_some, or_default, pos,
  negsuc, inl, inr, ◌⊎◌,
}
use qayoda_backend.Billing.Types.{
  User, Payment, PaymentStatus, status_eq, paynet, body, topup_min, topup_max, max_safe_integer,
}
use qayoda_backend.Billing.Store.{
  Db, Result, Action, ok, err, ◌>>=◌, pure, gets, reversal_not_possible,
}
use qayoda_backend.Billing.Wallet.{get_balance}
use qayoda_backend.Billing.Payments.{find_by_provider_txn, record_push_payment, reverse}
use qayoda_backend.Billing.Json.{Value, is_undefined, number_of}
use qayoda_backend.Billing.Paynet.Protocol.{
  PaynetCode, bad_params, service_not_found, bad_amount, amount_too_big, txn_exists, txn_not_found,
  txn_cancelled, cannot_cancel, PaynetState, PaynetFields, PaynetParams, PaynetConfig, PaynetReply,
  fail, information, performed, state,
}
use qayoda_backend.Billing.Paynet.Guards.{
  service_ok, txn_id_of, find_payer, fiscal_status, mask_name,
}

unfoldable pub get_information : PaynetConfig → PaynetParams → Action PaynetReply
get_information c p = do
  now ← gets (λ db. db.now)
  found ← gets (find_payer c (or_default p.fields []))
  if is_undefined p.service_id || not (is_some p.fields)
      then pure (fail bad_params)
      else if not (service_ok c p.service_id)
      then pure (fail service_not_found)
      else elim found [
        | inl code ↦ pure (fail code)
        | inr u ↦ (do balance ← get_balance u.id; pure (information (mask_name u) balance now))
      ]

-- A whole number of tiyin within the bounds of a top-up, or the refusal.
unfoldable pub push_amount : Value → PaynetCode ⊎ ℕ
push_amount v = elim (number_of v) [
  | none ↦ inl bad_amount
  | some (negsuc n) ↦ inl bad_amount
  | some (pos n) ↦
      if ltb max_safe_integer n || ltb n (topup_min * 100)
      then inl bad_amount
      else if ltb (topup_max * 100) n
      then inl amount_too_big
      else inr n
]

-- The rows that `recordPushPayment` inserted: none is a concurrent call that has won.
unfoldable pub performed_reply : PaynetFields → ℕ → Option Payment → Action PaynetReply
performed_reply fields user none = pure (fail txn_exists)
performed_reply fields user (some x) = do
  balance ← get_balance user
  now ← gets (λ db. db.now)
  pure (performed x.prepare_id (or_default x.paid_at now) fields balance)

-- `perform`, once the transaction is known to be new and the payer is found.
unfoldable pub perform_push : PaynetConfig → PaynetFields → ℕ → String → User → Action PaynetReply
perform_push c fields amount txn u = do
  inserted ← record_push_payment paynet u.id amount txn body (fiscal_status c)
  performed_reply fields u.id inserted

unfoldable pub perform : PaynetConfig → PaynetParams → Action PaynetReply
perform c p = do
  existing ← gets (find_by_provider_txn paynet (or_default (txn_id_of p.transaction_id) ""))
  found ← gets (find_payer c (or_default p.fields []))
  if is_undefined p.service_id
        || is_undefined p.amount
        || is_undefined p.transaction_id
        || not (is_some p.fields)
      then pure (fail bad_params)
      else if not (service_ok c p.service_id)
      then pure (fail service_not_found)
      else elim (txn_id_of p.transaction_id) [
        | none ↦ pure (fail bad_params)
        | some txn ↦ elim (push_amount p.amount) [
          | inl code ↦ pure (fail code)
          | inr amount ↦ if is_some existing then pure (fail txn_exists) else elim found [
            | inl code ↦ pure (fail code)
            | inr u ↦ perform_push c (or_default p.fields []) amount txn u
          ]
        ]
      ]

-- `stateOf`
unfoldable pub state_of : Payment → PaynetReply
state_of x =
    if status_eq x.status PaymentStatus.cancelled
    then state x.prepare_id (or_default x.cancelled_at x.updated_at) PaynetState.cancelled
    else state x.prepare_id (or_default x.paid_at x.updated_at) PaynetState.success

-- What `check` and `cancel` first ask of the parameters.
abbrev pub with_txn :
    PaynetConfig → PaynetParams → (String → Action PaynetReply) → Action PaynetReply
with_txn c p go =
    if is_undefined p.service_id || is_undefined p.transaction_id
    then pure (fail bad_params)
    else if not (service_ok c p.service_id)
    then pure (fail service_not_found)
    else elim (txn_id_of p.transaction_id) [ none ↦ pure (fail bad_params) | some txn ↦ go txn ]

unfoldable pub check : PaynetConfig → PaynetParams → Action PaynetReply
unfolding state_of
check c p = with_txn c p λ txn. do
  now ← gets (λ db. db.now)
  found ← gets (find_by_provider_txn paynet txn)
  pure (elim found [ none ↦ state 0 now PaynetState.not_found | some x ↦ state_of x ])

-- `catch`: a reversal that is not possible is an answer, any other failure is raised again.
abbrev pub or_cannot_cancel : Result PaynetReply × Db → Result PaynetReply × Db
or_cannot_cancel (err reversal_not_possible, db) = (ok (fail cannot_cancel), db)
or_cannot_cancel (r, db) = (r, db)

-- `cancel`, once the payment is read.
unfoldable pub cancel_read : String → Payment → Action PaynetReply
unfolding state_of
cancel_read txn x =
    if status_eq x.status PaymentStatus.cancelled then pure (fail txn_cancelled) else (λ db.
      or_cannot_cancel (
        (do
          reversed ← reverse paynet x "paynet:cancel" none db.now
          fresh ← gets (find_by_provider_txn paynet txn)
          pure (if reversed then state_of (or_default fresh x) else fail txn_cancelled))
          db))

unfoldable pub cancel : PaynetConfig → PaynetParams → Action PaynetReply
cancel c p = with_txn c p λ txn. do
  found ← gets (find_by_provider_txn paynet txn)
  elim found [ none ↦ pure (fail txn_not_found) | some x ↦ cancel_read txn x ]
