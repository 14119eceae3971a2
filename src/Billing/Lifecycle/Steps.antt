-- ===== src/Billing/Lifecycle/Steps.antt =====
-- Every interleaving of the billing services: a step is one method on the database, atomic as its
-- transaction or statement makes it. `pay` and `take_back` take a payment that was read at some earlier
-- time (`IsSnapshot`); `prepare` and `abandon` move no money, and take any payment at all.
use qayoda_backend.Base.{ℕ, ◌≡◌, Bool, Option, none, String, List, ℤ}
use qayoda_backend.Billing.Types.{
  PaymentProviderKind, Payment, Payload, FiscalStatus, TariffAction, paid, User, Tariff, BonusTier,
}
use qayoda_backend.Billing.Store.{Db, transaction}
use qayoda_backend.Billing.Wallet.{refund, get_balance}
use qayoda_backend.Billing.Pricing.{charge}
use qayoda_backend.Billing.Payments.{
  mark_prepared, mark_paid, cancel, reverse, record_push_payment, claim_fiscal, mark_fiscal_result,
  log_webhook, expire_stale_payments,
}
use qayoda_backend.Billing.Admin.{adjust_wallet, reset_free_grant}
use qayoda_backend.Billing.Settlement.Adjusted.{adjust_wallet-Idle, reset_free_grant-Idle}
use qayoda_backend.Billing.Topup.{create_order}
use qayoda_backend.Billing.Settlement.Invariant.{IsSound}
use qayoda_backend.Billing.Settlement.Snapshot.{IsSnapshot}
use qayoda_backend.Billing.Settlement.Paid.{mark_paid-IsSound}
use qayoda_backend.Billing.Settlement.Reversed.{reverse-IsSound}
use qayoda_backend.Billing.Settlement.Relabelled.{
  mark_prepared-IsSound, cancel-IsSound, claim_fiscal-IsSound, mark_fiscal_result-IsSound,
  expire_stale_payments-IsSound,
}
use qayoda_backend.Billing.Settlement.Inserted.{create_order-IsSound, record_push_payment-IsSound}
use qayoda_backend.Billing.Settlement.Charged.{charge-Idle, refund-Idle, get_balance-Idle}
use qayoda_backend.Billing.Lifecycle.Methods.{
  mark_prepared-IsSnapshot, mark_paid-IsSnapshot, cancel-IsSnapshot, reverse-IsSnapshot,
  record_push_payment-IsSnapshot, create_order-IsSnapshot, claim_fiscal-IsSnapshot,
  mark_fiscal_result-IsSnapshot, expire_stale_payments-IsSnapshot, Idle-IsSnapshot,
}

-- What other parts of the server write: the clock, the users and an admin's prices.
abbrev pub configured : ℕ → List User → List Tariff → List BonusTier → Db → Db
configured now users tariffs tiers db = record db {
  now = now;
  users = users;
  tariffs = tariffs;
  bonus_tiers = tiers;
}

pub data Step (db : Db) : Db → Type 0 where
  configure :
      (now : ℕ) (users : List User) (tariffs : List Tariff) (tiers : List BonusTier)
      → Step db (configured now users tariffs tiers db)
  order :
      (user : ℕ) (kind : PaymentProviderKind) (amount : ℕ) (client : Option ℕ)
      → Step db (create_order user kind amount client db).1
  prepare :
      (provider : PaymentProviderKind) (p : Payment) (txn : String) (payload : Payload)
      (create_time : ℕ) (doc : Option String)
      → Step db (mark_prepared provider p txn payload create_time doc db).1
  pay :
      (provider : PaymentProviderKind) (p : Payment) (txn : String) (payload : Payload)
      (fiscal : FiscalStatus) (perform_time : ℕ) (doc : Option String)
      → IsSnapshot p db
      → Step db (mark_paid provider p txn payload fiscal perform_time doc db).1
  push :
      (provider : PaymentProviderKind) (user amount : ℕ) (txn : String) (payload : Payload)
      (fiscal : FiscalStatus)
      → Step db (record_push_payment provider user amount txn payload fiscal db).1
  abandon :
      (provider : PaymentProviderKind) (p : Payment) (reason : String) (error : Option String)
      (payload : Option Payload) (cancel_time : ℕ)
      → Step db (cancel provider p reason error payload cancel_time db).1
  take_back :
      (provider : PaymentProviderKind) (p : Payment) (reason : String) (error : Option String)
      (cancel_time : ℕ)
      → p.status ≡ paid
      → IsSnapshot p db
      → Step db (reverse provider p reason error cancel_time db).1
  expire : Step db (expire_stale_payments db)
  claim : (id : ℕ) → Step db (claim_fiscal id db).1
  result : (id : ℕ) (success : Bool) → Step db (mark_fiscal_result id success db).1
  audit : (provider : PaymentProviderKind) (valid : Bool) → Step db (log_webhook provider valid db)
  charge_user :
      (user : ℕ) (action : TariffAction) (ref : Option ℕ)
      → Step db (transaction (charge user action ref) db).1
  refund_user :
      (user : ℕ) (amount : ℤ) (ref : Option ℕ) → Step db (transaction (refund user amount ref) db).1
  adjust :
      (admin user : ℕ) (amount : ℤ) (client : Option ℕ)
      → Step db (adjust_wallet admin user amount client db).1
  reset : (user : ℕ) (action : TariffAction) → Step db (reset_free_grant user action db).1
  look : (user : ℕ) → Step db (get_balance user db).1

pub data Reach (start : Db) : Db → Type 0 where
  here : Reach start start
  next : {s t : Db} → Reach start s → Step s t → Reach start t

configured-IsSound :
    (now : ℕ) (users : List User) (tariffs : List Tariff) (tiers : List BonusTier) (db : Db)
    → IsSound db
    → IsSound (configured now users tariffs tiers db)
configured-IsSound now users tariffs tiers db h = record {
  balanced = record { accounted = h.balanced.accounted; bounded = h.balanced.bounded };
  below = h.below;
  distinct = h.distinct;
  settled = h.settled;
  fresh = h.fresh;
}

log_webhook-IsSound :
    (provider : PaymentProviderKind) (valid : Bool) (db : Db)
    → IsSound db
    → IsSound (log_webhook provider valid db)
unfolding log_webhook
log_webhook-IsSound provider valid db h = record {
  balanced = record { accounted = h.balanced.accounted; bounded = h.balanced.bounded };
  below = h.below;
  distinct = h.distinct;
  settled = h.settled;
  fresh = h.fresh;
}

log_webhook-IsSnapshot :
    (p : Payment) (provider : PaymentProviderKind) (valid : Bool) (db : Db)
    → IsSnapshot p db
    → IsSnapshot p (log_webhook provider valid db)
unfolding log_webhook
log_webhook-IsSnapshot p provider valid db s = record { known = s.known; row = s.row }

pub Step-IsSound : {s t : Db} → Step s t → IsSound s → IsSound t
Step-IsSound {s} (configure now users tariffs tiers) h =
    configured-IsSound now users tariffs tiers s h
Step-IsSound {s} (order user kind amount client) h =
    create_order-IsSound s h user kind amount client
Step-IsSound {s} (prepare provider p txn payload create_time doc) h =
    mark_prepared-IsSound s h provider p txn payload create_time doc
Step-IsSound {s} (pay provider p txn payload fiscal perform_time doc snap) h =
    mark_paid-IsSound provider p txn payload fiscal perform_time doc s snap h
Step-IsSound {s} (push provider user amount txn payload fiscal) h =
    record_push_payment-IsSound s h provider user amount txn payload fiscal
Step-IsSound {s} (abandon provider p reason error payload cancel_time) h =
    cancel-IsSound s h provider p reason error payload cancel_time
Step-IsSound {s} (take_back provider p reason error cancel_time seen snap) h =
    reverse-IsSound provider p reason error cancel_time s seen snap h
Step-IsSound {s} expire h = expire_stale_payments-IsSound s h
Step-IsSound {s} (claim id) h = claim_fiscal-IsSound s h id
Step-IsSound {s} (result id success) h = mark_fiscal_result-IsSound s h id success
Step-IsSound {s} (audit provider valid) h = log_webhook-IsSound provider valid s h
Step-IsSound {s} (charge_user user action ref) h = (charge-Idle user ref s action).keeps h
Step-IsSound {s} (refund_user user amount ref) h = (refund-Idle user ref s amount).keeps h
Step-IsSound {s} (adjust admin user amount client) h =
    (adjust_wallet-Idle admin user amount client s).keeps h
Step-IsSound {s} (reset user action) h = (reset_free_grant-Idle user action s).keeps h
Step-IsSound {s} (look user) h = (get_balance-Idle user none s).keeps h

pub Step-IsSnapshot : {s t : Db} (p : Payment) → Step s t → IsSnapshot p s → IsSnapshot p t
Step-IsSnapshot {s} p (configure now users tariffs tiers) k = record {
  known = k.known;
  row = k.row;
}
Step-IsSnapshot {s} p (order user kind amount client) k =
    create_order-IsSnapshot p s k user kind amount client
Step-IsSnapshot {s} p (prepare provider q txn payload create_time doc) k =
    mark_prepared-IsSnapshot p s k provider q txn payload create_time doc
Step-IsSnapshot {s} p (pay provider q txn payload fiscal perform_time doc _) k =
    mark_paid-IsSnapshot p s k provider q txn payload fiscal perform_time doc
Step-IsSnapshot {s} p (push provider user amount txn payload fiscal) k =
    record_push_payment-IsSnapshot p s k provider user amount txn payload fiscal
Step-IsSnapshot {s} p (abandon provider q reason error payload cancel_time) k =
    cancel-IsSnapshot p s k provider q reason error payload cancel_time
Step-IsSnapshot {s} p (take_back provider q reason error cancel_time _ _) k =
    reverse-IsSnapshot p s k provider q reason error cancel_time
Step-IsSnapshot {s} p expire k = expire_stale_payments-IsSnapshot p s k
Step-IsSnapshot {s} p (claim id) k = claim_fiscal-IsSnapshot p s k id
Step-IsSnapshot {s} p (result id success) k = mark_fiscal_result-IsSnapshot p s k id success
Step-IsSnapshot {s} p (audit provider valid) k = log_webhook-IsSnapshot p provider valid s k
Step-IsSnapshot {s} p (charge_user user action ref) k =
    Idle-IsSnapshot p s k _ (charge-Idle user ref s action)
Step-IsSnapshot {s} p (refund_user user amount ref) k =
    Idle-IsSnapshot p s k _ (refund-Idle user ref s amount)
Step-IsSnapshot {s} p (adjust admin user amount client) k =
    Idle-IsSnapshot p s k _ (adjust_wallet-Idle admin user amount client s)
Step-IsSnapshot {s} p (reset user action) k =
    Idle-IsSnapshot p s k _ (reset_free_grant-Idle user action s)
Step-IsSnapshot {s} p (look user) k = Idle-IsSnapshot p s k _ (get_balance-Idle user none s)
