-- ===== src/Billing/Paynet/Protocol.antt =====
-- What Paynet sends and what it is answered (billing/providers/paynet/paynet.provider.ts).
use qayoda_backend.Base.{ℕ, Bool, false, ◌&&◌, Option, none, some, String, List, not, str_eq}
use qayoda_backend.Billing.Json.{Value}

-- The keys of `PAYNET`.
pub data PaynetCode : Type 0 where
  not_post parse bad_request method_not_found bad_params internal : PaynetCode
  cannot_cancel system txn_exists txn_cancelled txn_not_found : PaynetCode
  client_not_found service_not_found missing_fields bad_login bad_amount : PaynetCode
  bad_date amount_too_big payer_forbidden access_denied : PaynetCode

-- `PAYNET_STATE`
pub data PaynetState : Type 0 where
  success cancelled not_found : PaynetState

-- The account form, field by field.
abbrev pub PaynetFields : Type 0
PaynetFields = List (String × Value)

pub record PaynetParams : Type 0 where
  pub service_id : Value
  pub amount : Value
  pub transaction_id : Value
  pub date_from : Value
  pub date_to : Value
  -- `none` where `fields` is no object
  pub fields : Option PaynetFields

pub record PaynetRpc : Type 0 where
  pub jsonrpc : Value
  pub method : Value
  -- `none` where `params` is no object
  pub params : Option PaynetParams

-- The PAYNET_* variables.
pub record PaynetConfig : Type 0 where
  pub service_id : Option String
  pub username : Option String
  pub password : Option String
  pub merchant_id : Option String
  pub allowed_ips : Option String
  pub account_field : Option String
  pub fiscal : Option String

abbrev pub is_set : Option String → Bool
is_set none = false
is_set (some s) = not (str_eq s "")

unfoldable pub enabled : PaynetConfig → Bool
enabled c = is_set c.service_id && is_set c.username && is_set c.password && is_set c.merchant_id

pub record PaynetStatement : Type 0 where
  pub amount : ℕ
  pub provider_trn_id : ℕ
  pub transaction_id : Option String
  pub timestamp : ℕ

-- The `result` or the `error` of a response, whose id is the request's. A timestamp is its moment,
-- which is sent as its second in Tashkent time; the balance of `information` is sent in so'm.
pub data PaynetReply : Type 0 where
  fail : PaynetCode → PaynetReply
  information : (name : String) → (balance timestamp : ℕ) → PaynetReply
  performed : (provider_trn_id timestamp : ℕ) → PaynetFields → (balance : ℕ) → PaynetReply
  state : (provider_trn_id timestamp : ℕ) → PaynetState → PaynetReply
  statements : List PaynetStatement → PaynetReply

-- The HTTP status and the body.
pub record HttpReply : Type 0 where
  pub http_status : ℕ
  pub body : PaynetReply
