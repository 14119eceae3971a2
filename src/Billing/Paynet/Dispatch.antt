-- ===== src/Billing/Paynet/Dispatch.antt =====
-- PaynetProvider (billing/providers/paynet/paynet.provider.ts): the statement, the dispatch of the
-- methods and the answer.
use qayoda_backend.Base.{
  ℕ, Bool, false, not, ◌||◌, Option, none, some, String, List, [], map, ltb_ℤ, if◌then◌else◌,
  or_default, str_eq, ℤ, pos, negsuc,
}
use qayoda_backend.Base.Text.{trim_text}
use qayoda_backend.Billing.Types.{Payment, paynet}
use qayoda_backend.Billing.Store.{Db, Result, Action, ok, err, pure, gets}
use qayoda_backend.Billing.Payments.{list_paid_between, log_webhook}
use qayoda_backend.Billing.Json.{Value, text, is_undefined}
use qayoda_backend.Billing.Paynet.Protocol.{
  bad_params, service_not_found, bad_date, method_not_found, access_denied, bad_login, not_post,
  bad_request, system, PaynetParams, PaynetRpc, PaynetConfig, PaynetReply, fail, statements,
  PaynetStatement, HttpReply,
}
use qayoda_backend.Billing.Paynet.Times.{from_paynet_time}
use qayoda_backend.Billing.Paynet.Guards.{Net, service_ok, authorized, ip_allowed}
use qayoda_backend.Billing.Paynet.Methods.{get_information, perform, check, cancel}

abbrev statement_entry : Payment → PaynetStatement
statement_entry x = record {
  amount = x.amount;
  provider_trn_id = x.prepare_id;
  transaction_id = x.provider_txn_id;
  timestamp = or_default x.paid_at 0;
}

-- The payments of a range of times; no time is before 0.
abbrev listed : ℤ → ℤ → Db → List Payment
listed (pos lo) (pos hi) db = list_paid_between paynet lo hi db
listed (negsuc lo) (pos hi) db = list_paid_between paynet 0 hi db
listed lo (negsuc hi) db = []

unfoldable pub statement : PaynetConfig → PaynetParams → Action PaynetReply
statement c p =
    if is_undefined p.service_id || is_undefined p.date_from || is_undefined p.date_to
    then pure (fail bad_params)
    else if not (service_ok c p.service_id)
    then pure (fail service_not_found)
    else elim (from_paynet_time p.date_from) [
      | none ↦ pure (fail bad_date)
      | some lo ↦ elim (from_paynet_time p.date_to) [
        | none ↦ pure (fail bad_date)
        | some hi ↦
            if ltb_ℤ hi lo
            then pure (fail bad_date)
            else gets (λ db. statements (map statement_entry (listed lo hi db)))
      ]
    ]

unfoldable pub dispatch : PaynetConfig → String → PaynetParams → Action PaynetReply
dispatch c method p =
    if str_eq method "GetInformation"
    then get_information c p
    else if str_eq method "PerformTransaction"
    then perform c p
    else if str_eq method "CheckTransaction"
    then check c p
    else if str_eq method "CancelTransaction"
    then cancel c p
    else if str_eq method "GetStatement"
    then statement c p
    else pure (fail method_not_found)

-- `catch` of `handle`.
abbrev pub or_system : Result PaynetReply × Db → PaynetReply × Db
or_system (ok r, db) = (r, db)
or_system (err e, db) = (fail system, db)

abbrev pub is_version : Value → Bool
is_version (text s) = str_eq s "2.0"
is_version _ = false

abbrev pub method_of : Value → String
method_of (text s) = trim_text s
method_of _ = ""

-- `handle`, once the caller is let in.
unfoldable pub handle_body : PaynetConfig → PaynetRpc → Action PaynetReply
handle_body c rpc =
    if not (is_version rpc.jsonrpc) || str_eq (method_of rpc.method) ""
    then pure (fail bad_request)
    else elim rpc.params [
      | none ↦ pure (fail bad_request)
      | some p ↦ dispatch c (method_of rpc.method) p
    ]

-- The audit row is written last.
abbrev pub logged : Bool → ℕ → PaynetReply × Db → HttpReply × Db
logged valid status (r, db) =
    (record { http_status = status; body = r }, log_webhook paynet valid db)

unfoldable pub handle :
    PaynetConfig
    → (List ℕ → List ℕ)
    → List Net
    → (http_method : String) → (ip header : Option String) → PaynetRpc
    → Db
    → HttpReply × Db
handle c base64 nets http_method ip header rpc db =
    let valid = authorized base64 c header in
    if not (ip_allowed nets ip)
    then logged valid 403 (fail access_denied, db)
    else if not valid
    then logged valid 401 (fail bad_login, db)
    else if not (str_eq http_method "POST")
    then logged valid 200 (fail not_post, db)
    else logged valid 200 (or_system (handle_body c rpc db))
