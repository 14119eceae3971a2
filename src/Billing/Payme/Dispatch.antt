-- ===== src/Billing/Payme/Dispatch.antt =====
-- PaymeProvider (billing/providers/payme/payme.provider.ts): the statement, the dispatch of the
-- methods and the answer.

use qayoda_backend.Base.{
  ℕ, Bool, true, false, Option, none, some, String, List, map, if◌then◌else◌, or_default, str_eq, ℤ,
  pos, negsuc, ltb_ℤ, [],
}
use qayoda_backend.Billing.Types.{Payment, payme, payme_order}
use qayoda_backend.Billing.Store.{Db, Result, Action, ok, err, pure, gets}
use qayoda_backend.Billing.Payments.{list_by_create_time, log_webhook}
use qayoda_backend.Billing.Fiscal.{FiscalConfig}
use qayoda_backend.Billing.Json.{number_of}
use qayoda_backend.Billing.Payme.Protocol.{
  PaymeParams, PaymeRpc, PaymeReply, fail, statement, PaymeEntry, status_of, bad_request,
  method_not_found, unauthorized, system, authorized,
}
use qayoda_backend.Billing.Payme.Methods.{check_perform, create, perform, cancel_txn, check}

-- Payme's time of a transaction, or ours.
abbrev entry_time : Payment → ℕ
entry_time x = elim x.provider_payload [
  | some (payme_order _ t) ↦ t
  | _ ↦ or_default x.provider_create_time 0
]

abbrev entry : Payment → PaymeEntry
entry x = record {
  id = x.provider_txn_id;
  time = entry_time x;
  amount = x.amount;
  payment_id = x.id;
  status = status_of x;
}

-- The bounds of a query that bound nothing below are 0 there.
abbrev from_zero : ℤ → ℕ
from_zero (pos n) = n
from_zero (negsuc n) = 0

-- The rows that were created in a range of times; no time is before 0.
abbrev listed : ℤ → ℤ → Db → List Payment
listed lo (pos hi) db = list_by_create_time payme (from_zero lo) hi db
listed lo (negsuc hi) db = []

unfoldable pub statement_of : PaymeParams → Action PaymeReply
statement_of p = elim (number_of p.from) [
  | none ↦ pure (fail bad_request)
  | some lo ↦ elim (number_of p.to) [
    | none ↦ pure (fail bad_request)
    | some hi ↦
        if ltb_ℤ hi lo
        then pure (fail bad_request)
        else gets (λ db. statement (map entry (listed lo hi db)))
  ]
]

unfoldable pub dispatch : FiscalConfig → String → PaymeParams → Action PaymeReply
unfolding check_perform create perform cancel_txn check statement_of
dispatch c method p =
    if str_eq method "CheckPerformTransaction"
    then check_perform c p
    else if str_eq method "CreateTransaction"
    then create p
    else if str_eq method "PerformTransaction"
    then perform c p
    else if str_eq method "CancelTransaction"
    then cancel_txn p
    else if str_eq method "CheckTransaction"
    then check p
    else if str_eq method "GetStatement"
    then statement_of p
    else pure (fail method_not_found)

-- `catch` of `handleRpc`, and the audit row.
abbrev pub answered : Bool → Result PaymeReply × Db → PaymeReply × Db
answered valid (ok r, db) = (r, log_webhook payme valid db)
answered valid (err e, db) = (fail system, log_webhook payme valid db)

-- A method that is absent or empty, or parameters that are no object, are a bad request.
unfoldable pub handle_body : FiscalConfig → PaymeRpc → Action PaymeReply
unfolding dispatch
handle_body c rpc = elim rpc.method [
  | none ↦ pure (fail bad_request)
  | some method ↦
      if str_eq method ""
      then pure (fail bad_request)
      else elim rpc.params [ none ↦ pure (fail bad_request) | some p ↦ dispatch c method p ]
]

unfoldable pub handle_rpc :
    FiscalConfig
    → (List ℕ → List ℕ)
    → Option String
    → Option String
    → PaymeRpc
    → Db
    → PaymeReply × Db
unfolding handle_body
handle_rpc c base64 key header rpc db =
    if authorized base64 key header
    then answered true (handle_body c rpc db)
    else answered false (ok (fail unauthorized), db)
