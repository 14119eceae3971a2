-- ===== src/Billing/Webhooks/Guarded.antt =====
-- What the webhooks (billing/providers) do with a call that is refused or comes too late.
use qayoda_backend.Base.{
  ℕ, ◌≡◌, refl, Bool, true, false, ◌&&◌, inl, inr, Option, String, List, Bool-cases, is_text,
  if◌then◌else◌, any, update_where-none, is_some,
}
use qayoda_backend.Billing.Types.{Payment, PaymentStatus, payme, paynet, click}
use qayoda_backend.Billing.Store.{Db, Result}
use qayoda_backend.Billing.Payments.{log_webhook, cancel, row_of, is_open}
use qayoda_backend.Billing.Fiscal.{FiscalConfig}
use qayoda_backend.Billing.Click.{ClickBody, verify_signature, prepare, complete, handle_webhook}
use qayoda_backend.Billing.Payme.{
  PaymeRpc, withdrawn, fail, unauthorized, handle_rpc, cancel_result, status_of,
  authorized as payme_authorized, cancel_read, cancelled, cancelled_after_perform,
}
use qayoda_backend.Billing.Paynet.{
  PaynetConfig, PaynetRpc, Net, ip_allowed, authorized as paynet_authorized, handle,
}

-- A call without Payme's key is answered -32504 and writes nothing but its audit row.
pub payme-unauthorized :
    (c : FiscalConfig) (base64 : List ℕ → List ℕ) (key header : Option String) (rpc : PaymeRpc)
    (db : Db)
    → payme_authorized base64 key header ≡ false
    → handle_rpc c base64 key header rpc db ≡ (fail unauthorized, log_webhook payme false db)
unfolding handle_rpc
payme-unauthorized c base64 key header rpc db h = rw h refl

-- A callback whose signature is not Click's writes nothing but its audit row.
pub click-unsigned :
    (c : FiscalConfig) (md5 : String → String) (secret : Option String) (is_complete : Bool)
    (b : ClickBody) (db : Db)
    → verify_signature md5 secret b is_complete ≡ false
    → (handle_webhook c md5 secret is_complete b db).1 ≡ log_webhook click false db
unfolding handle_webhook complete prepare
click-unsigned c md5 secret true b db h = elim (Bool-cases (is_text "1" b.action)) [
  | inl e ↦ rw (h, e) refl
  | inr e ↦ rw (h, e) refl
]
click-unsigned c md5 secret false b db h = elim (Bool-cases (is_text "0" b.action)) [
  | inl e ↦ rw (h, e) refl
  | inr e ↦ rw (h, e) refl
]

-- A call from another host, or without the password, is answered 403 or 401 and writes nothing but
-- its audit row.
pub paynet-refused :
    (c : PaynetConfig) (base64 : List ℕ → List ℕ) (nets : List Net) (http_method : String)
    (ip header : Option String) (rpc : PaynetRpc) (db : Db)
    → (ip_allowed nets ip && paynet_authorized base64 c header) ≡ false
    → ((handle c base64 nets http_method ip header rpc db).1
        ≡ log_webhook paynet (paynet_authorized base64 c header) db)
      × ((handle c base64 nets http_method ip header rpc db).0.http_status
          ≡ (if ip_allowed nets ip then 401 else 403))
unfolding handle
paynet-refused c base64 nets http_method ip header rpc db h =
    elim (Bool-cases (ip_allowed nets ip)) [
      | inr stranger ↦ rw stranger (refl, refl)
      | inl known ↦
          let refused : paynet_authorized base64 c header ≡ false = rw known at h in
          rw (known, refused) (refl, refl)
    ]

-- When a Payme payment was read as prepared and its row is no longer open, as after a concurrent
-- payment, CancelTransaction changes nothing and is answered that the transaction is cancelled.
pub payme-cancel_stale :
    (reason : String) (x : Payment) (db : Db)
    → x.status ≡ PaymentStatus.prepared
    → x.provider ≡ payme
    → any (row_of payme x is_open) db.payments ≡ false
    → cancel_read reason x db ≡ (
      Result.ok (
          withdrawn db.now x.id
            (if is_some x.provider_perform_time then cancelled_after_perform else cancelled)),
      db,
    )
unfolding cancel_read cancel cancel_result status_of
payme-cancel_stale reason x db ready own gone =
    rw (ready, own, gone, update_where-none _ _ _ gone) refl
