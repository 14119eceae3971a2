-- ===== src/Billing/Payme/Protocol.antt =====
-- What Payme sends and what it is answered (billing/providers/payme/payme.provider.ts).
use qayoda_backend.Base.{
  ℕ, ◌+◌, Bool, false, Option, none, some, String, List, ◌++◌, ltb, if◌then◌else◌, is_some,
  or_default, str_eq, ℤ,
}
use qayoda_backend.Base.Text.{codes, after_prefix, same_bytes}
use qayoda_backend.Billing.Types.{Payment, PaymentStatus}
use qayoda_backend.Billing.Fiscal.{FiscalLine}
use qayoda_backend.Billing.Json.{Value, number, text, show_ℤ, number_of}

-- The keys of `PAYME`.
pub data PaymeCode : Type 0 where
  bad_request method_not_found unauthorized system : PaymeCode
  bad_amount txn_not_found cannot_cancel cannot_perform : PaymeCode
  order_not_found order_not_available : PaymeCode

-- The number that is sent for it, without its minus sign.
abbrev pub code_number : PaymeCode → ℕ
code_number bad_request = 32600
code_number method_not_found = 32601
code_number unauthorized = 32504
code_number system = 32400
code_number bad_amount = 31001
code_number txn_not_found = 31003
code_number cannot_cancel = 31007
code_number cannot_perform = 31008
code_number order_not_found = 31050
code_number order_not_available = 31051

-- `PAYME_STATE`: 1, 2, -1 and -2.
pub data PaymeState : Type 0 where
  created performed cancelled cancelled_after_perform : PaymeState

-- `PAYME_TIMEOUT_MS`: 12 hours.
abbrev pub payme_timeout_ms : ℕ
payme_timeout_ms = 43200000

pub record PaymeParams : Type 0 where
  pub id : Value
  pub time : Value
  pub amount : Value
  pub reason : Value
  pub from : Value
  pub to : Value
  -- `account?.payment_id`
  pub payment_id : Value

pub record PaymeRpc : Type 0 where
  pub method : Option String
  -- `none` where `params` is no object
  pub params : Option PaymeParams

-- A string or a number.
unfoldable pub as_ref : Value → Option String
unfolding show_ℤ
as_ref (text s) = some s
as_ref (number n) = some (show_ℤ n)
as_ref _ = none

pub record PaymeStatus : Type 0 where
  pub create_time : ℕ
  pub perform_time : ℕ
  pub cancel_time : ℕ
  pub transaction : ℕ
  pub state : PaymeState
  -- `none` is NaN where the stored error is no number
  pub reason : Option (Option ℤ)

pub record PaymeEntry : Type 0 where
  pub id : Option String
  pub time : ℕ
  pub amount : ℕ
  pub payment_id : ℕ
  pub status : PaymeStatus

-- The `result` or the `error` of a response; its id is the request's.
pub data PaymeReply : Type 0 where
  fail : PaymeCode → PaymeReply
  allow : Option FiscalLine → PaymeReply
  opened : (create_time transaction : ℕ) → PaymeReply
  done : (perform_time transaction : ℕ) → PaymeReply
  withdrawn : (cancel_time transaction : ℕ) → PaymeState → PaymeReply
  status : PaymeStatus → PaymeReply
  statement : List PaymeEntry → PaymeReply

-- `statusOf(x).state`
abbrev pub state_of : Payment → PaymeState
state_of x = elim x.status [
  | PaymentStatus.paid ↦ performed
  | PaymentStatus.prepared ↦ PaymeState.created
  | _ ↦ if is_some x.provider_perform_time then cancelled_after_perform else PaymeState.cancelled
]

abbrev reason_of : PaymentStatus → Option String → Option (Option ℤ)
reason_of PaymentStatus.cancelled (some e) = if str_eq e "" then none else some (number_of (text e))
reason_of _ _ = none

unfoldable pub status_of : Payment → PaymeStatus
status_of x = record {
  create_time = or_default x.provider_create_time 0;
  perform_time = or_default x.provider_perform_time 0;
  cancel_time = or_default x.provider_cancel_time 0;
  transaction = x.id;
  state = state_of x;
  reason = reason_of x.status x.provider_error;
}

-- An unperformed transaction dies after 12 hours.
unfoldable pub expired : ℕ → Payment → Bool
expired now x = ltb (or_default x.provider_create_time 0 + payme_timeout_ms) now

unfoldable pub create_result : Payment → PaymeReply
create_result x = opened (or_default x.provider_create_time 0) x.id

unfoldable pub perform_result : Payment → PaymeReply
perform_result x = done (or_default x.provider_perform_time 0) x.id

unfoldable pub cancel_result : Payment → PaymeReply
cancel_result x = withdrawn (or_default x.provider_cancel_time 0) x.id (state_of x)

-- `base64` is Node's decoder of the header's credentials.
unfoldable pub authorized : (List ℕ → List ℕ) → Option String → Option String → Bool
authorized base64 none header = false
authorized base64 (some key) none = false
authorized base64 (some key) (some header) =
    if str_eq key "" then false else elim (after_prefix (codes "Basic ") (codes header)) [
      | none ↦ false
      | some given ↦ same_bytes (codes "Paycom:" ++ codes key) (base64 given)
    ]
