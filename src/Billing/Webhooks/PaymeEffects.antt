-- ===== src/Billing/Webhooks/PaymeEffects.antt =====
-- The changes that a call of Payme's (billing/providers/payme/payme.provider.ts) may leave.
use qayoda_backend.Base.{
  ℕ, zero, suc, ◌+◌, ◌≤◌, ◌<◌, ◌≡◌, ◌≢◌, ◌⊎◌, true, none, some, String, Option-cases, inl, inr,
  arith, or_default, pos, negsuc, ap, if◌then◌else◌,
}
use Prim.Native.String.{◌++◌}
use qayoda_backend.Billing.Types.{
  Payment, PaymentStatus, payme, payme_order, FiscalStatus, by_provider, body,
}
use qayoda_backend.Billing.Store.{Db}
use qayoda_backend.Billing.Payments.{
  find_by_provider_txn, find_by_merchant_ref, mark_prepared, mark_paid, cancel, reverse,
}
use qayoda_backend.Billing.Fiscal.{FiscalConfig, enabled}
use qayoda_backend.Billing.Json.{Value, number_of}
use qayoda_backend.Billing.Payme.{PaymeParams, as_ref, payme_time, is_amount, payme_timeout_ms}

-- The transaction that the parameters name, and Payme's own creation time of a payment.
abbrev pub txn_of : PaymeParams → String
txn_of p = or_default (as_ref p.id) ""

abbrev pub created_at_payme : Payment → ℕ
created_at_payme x = or_default x.provider_create_time 0

-- What a call of a method may leave: nothing of it, or one transition of a payment that the call
-- names, under the method's conditions.
pub data PaymeEffect (c : FiscalConfig) (method : String) (p : PaymeParams) (db : Db)
    : Db → Type 0 where
  quiet : PaymeEffect c method p db db
  prepares :
      (x : Payment) (time : ℕ)
      → method ≡ "CreateTransaction"
      → txn_of p ≢ ""
      → find_by_provider_txn payme (txn_of p) db ≡ none
      → find_by_merchant_ref payme (as_ref p.payment_id) db ≡ some x
      → number_of p.amount ≡ some (pos x.amount)
      → x.status ≡ PaymentStatus.created
      → number_of p.time ≡ some (pos time)
      → db.now ≤ time + payme_timeout_ms
      → PaymeEffect c method p db
          (mark_prepared payme x (txn_of p) (payme_order (txn_of p) time) db.now none db).1
  times_out :
      (x : Payment)
      → (method ≡ "CreateTransaction") ⊎ (method ≡ "PerformTransaction")
      → find_by_provider_txn payme (txn_of p) db ≡ some x
      → x.status ≢ PaymentStatus.paid
      → x.status ≢ PaymentStatus.cancelled
      → created_at_payme x + payme_timeout_ms < db.now
      → PaymeEffect c method p db (cancel payme x "timeout" (some "4") none db.now db).1
  pays :
      (x : Payment)
      → method ≡ "PerformTransaction"
      → find_by_provider_txn payme (txn_of p) db ≡ some x
      → x.status ≢ PaymentStatus.paid
      → x.status ≢ PaymentStatus.cancelled
      → db.now ≤ created_at_payme x + payme_timeout_ms
      → PaymeEffect c method p db
          (mark_paid payme x
            (or_default x.provider_txn_id "")
            (or_default x.provider_payload body)
            (if enabled c then by_provider else FiscalStatus.none)
            db.now
            none
            db).1
  withdraws :
      (x : Payment)
      → method ≡ "CancelTransaction"
      → find_by_provider_txn payme (txn_of p) db ≡ some x
      → x.status ≡ PaymentStatus.prepared
      → PaymeEffect c method p db
          (cancel payme x "provider_cancel"
            (some (or_default (as_ref p.reason) ""))
            none
            db.now
            db).1
  takes_back :
      (x : Payment)
      → method ≡ "CancelTransaction"
      → find_by_provider_txn payme (txn_of p) db ≡ some x
      → x.status ≡ PaymentStatus.paid
      → PaymeEffect c method p db
          (reverse payme x
            ("payme:" ++ or_default (as_ref p.reason) "")
            (some (or_default (as_ref p.reason) ""))
            db.now
            db).1

pub amount-eq : (v : Value) (x : Payment) → is_amount v x ≡ true → number_of v ≡ some (pos x.amount)
amount-eq v x h = elim (Option-cases (number_of v)) [
  | inl nan ↦ absurd (cc (rw (nan, is_amount) at h))
  | inr (pos n, read) ↦
      let e = rw (read, is_amount) at h in
      let same : n ≡ x.amount = ground (arith, e) in rw read (ap (λ (m : ℕ). some (pos m)) same)
  | inr (negsuc n, read) ↦ let e = rw (read, is_amount) at h in absurd (ground (arith, e))
]

pub time-eq : (v : Value) (t : ℕ) → payme_time v ≡ some t → number_of v ≡ some (pos t)
time-eq v t h = elim (Option-cases (number_of v)) [
  | inl nan ↦ absurd (cc (rw (nan, payme_time) at h))
  | inr (pos zero, read) ↦ absurd (cc (rw (read, payme_time) at h))
  | inr (pos (suc n), read) ↦
      let e = rw (read, payme_time) at h in
      let same : suc n ≡ t = ground (arith, e) in rw read (ap (λ (m : ℕ). some (pos m)) same)
  | inr (negsuc n, read) ↦ absurd (cc (rw (read, payme_time) at h))
]
