-- ===== src/Billing/Types.antt =====
-- The data of the billing module: billing.constants.ts, billing.events.ts and entities/.
-- A uuid is the 128-bit number that its digits write; an amount of money, which the database holds
-- as numeric(14,2), is its number of tiyin; a moment is its number of milliseconds.
use qayoda_backend.Base.{ℕ, ◌*◌, Bool, true, false, Option, String, ℤ}

-- `TARIFF_ACTIONS`
pub data TariffAction : Type 0 where
  listing_post listing_promote video_post : TariffAction

-- `TIMED_ACTIONS`
abbrev pub is_timed_action : TariffAction → Bool
is_timed_action listing_promote = true
is_timed_action _ = false

-- `FIRST_FREE_ACTIONS`
abbrev pub is_first_free_action : TariffAction → Bool
is_first_free_action listing_post = true
is_first_free_action _ = false

abbrev pub action_eq : TariffAction → TariffAction → Bool
action_eq listing_post listing_post = true
action_eq listing_promote listing_promote = true
action_eq video_post video_post = true
action_eq _ _ = false

pub data TxKind : Type 0 where
  topup topup_bonus listing_post listing_promote video_post refund admin_adjust : TxKind

-- `tariff.action as unknown as TxKind`: the two enums spell the three actions alike.
abbrev pub kind_of : TariffAction → TxKind
kind_of TariffAction.listing_post = TxKind.listing_post
kind_of TariffAction.listing_promote = TxKind.listing_promote
kind_of TariffAction.video_post = TxKind.video_post

abbrev pub kind_eq : TxKind → TxKind → Bool
kind_eq topup topup = true
kind_eq topup_bonus topup_bonus = true
kind_eq TxKind.listing_post TxKind.listing_post = true
kind_eq TxKind.listing_promote TxKind.listing_promote = true
kind_eq TxKind.video_post TxKind.video_post = true
kind_eq refund refund = true
kind_eq admin_adjust admin_adjust = true
kind_eq _ _ = false

pub data PaymentProviderKind : Type 0 where
  click payme paynet : PaymentProviderKind

abbrev pub provider_eq : PaymentProviderKind → PaymentProviderKind → Bool
provider_eq click click = true
provider_eq payme payme = true
provider_eq paynet paynet = true
provider_eq _ _ = false

pub data PaymentStatus : Type 0 where
  created prepared paid cancelled : PaymentStatus

abbrev pub status_eq : PaymentStatus → PaymentStatus → Bool
status_eq created created = true
status_eq prepared prepared = true
status_eq paid paid = true
status_eq cancelled cancelled = true
status_eq _ _ = false

pub data FiscalStatus : Type 0 where
  none by_provider pending sending sent failed : FiscalStatus

abbrev pub topup_min : ℕ
topup_min = 1000

abbrev pub topup_max : ℕ
topup_max = 10000000

-- `PAYMENT_TTL_HOURS`, in milliseconds.
abbrev pub payment_ttl_ms : ℕ
payment_ttl_ms = 24 * 3600000

abbrev pub fiscal_max_attempts : ℕ
fiscal_max_attempts = 5

-- `FISCAL_CLAIM_STALE_MINUTES`, in milliseconds.
abbrev pub fiscal_claim_stale_ms : ℕ
fiscal_claim_stale_ms = 15 * 60000

-- `MAX_BALANCE` of wallet.service.ts, 999 999 999 999.99 so'm, in tiyin.
abbrev pub max_balance : ℕ
max_balance = 99999999999999

-- `Number.MAX_SAFE_INTEGER`
abbrev pub max_safe_integer : ℕ
max_safe_integer = 9007199254740991

pub record WalletTransaction : Type 0 where
  pub id : ℕ
  pub user_id : ℕ
  pub amount : ℤ
  pub kind : TxKind
  pub reference_id : Option ℕ
  pub balance_after : ℕ
  pub client_id : Option ℕ
  pub admin_id : Option ℕ
  pub created_at : ℕ

pub record FreeGrant : Type 0 where
  pub user_id : ℕ
  pub action : TariffAction
  pub reference_id : Option ℕ
  pub used_at : ℕ

pub record Tariff : Type 0 where
  pub id : ℕ
  pub action : TariffAction
  pub price : ℕ
  pub duration_days : Option ℕ
  pub is_active : Bool

pub record BonusTier : Type 0 where
  pub id : ℕ
  pub min_amount : ℕ
  pub percent : ℕ
  pub is_active : Bool

-- What the code later reads of a stored webhook body: only `payme_time` of a Payme order.
pub data Payload : Type 0 where
  payme_order : String → ℕ → Payload
  body : Payload

pub record Payment : Type 0 where
  pub id : ℕ
  pub user_id : ℕ
  pub client_id : Option ℕ
  pub provider : PaymentProviderKind
  pub amount : ℕ
  pub bonus_amount : ℕ
  pub status : PaymentStatus
  pub prepare_id : ℕ
  pub provider_txn_id : Option String
  pub provider_doc_id : Option String
  pub provider_payload : Option Payload
  pub provider_error : Option String
  pub provider_create_time : Option ℕ
  pub provider_perform_time : Option ℕ
  pub provider_cancel_time : Option ℕ
  pub fiscal_status : FiscalStatus
  pub fiscal_attempts : ℕ
  pub fiscal_sent_at : Option ℕ
  pub paid_at : Option ℕ
  pub cancelled_at : Option ℕ
  pub cancel_reason : Option String
  pub created_at : ℕ
  pub updated_at : ℕ

-- The events of billing.events.ts, as they are written to the outbox.
pub data BillingEvent : Type 0 where
  payment_paid :
      (payment user : ℕ) → PaymentProviderKind → (amount bonus balance : ℕ) → BillingEvent
  payment_cancelled : (payment user : ℕ) → PaymentProviderKind → String → BillingEvent
  payment_reversed : (payment user : ℕ) → PaymentProviderKind → (total balance : ℕ) → BillingEvent

pub data UserRole : Type 0 where
  user admin : UserRole

pub data UserStatus : Type 0 where
  active banned : UserStatus

-- What billing reads of a user: users/entities/user.entity.ts.
pub record User : Type 0 where
  pub id : ℕ
  pub account_no : ℕ
  pub role : UserRole
  pub status : UserStatus
  pub name : Option String
  pub surname : Option String
  pub deleted_at : Option ℕ

-- The columns of payment_webhook_events that are not free text.
pub record PaymentWebhookEvent : Type 0 where
  pub provider : PaymentProviderKind
  pub signature_valid : Bool
  pub created_at : ℕ
