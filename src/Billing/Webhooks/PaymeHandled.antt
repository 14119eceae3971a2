-- ===== src/Billing/Webhooks/PaymeHandled.antt =====
-- Whom Payme's webhook (billing/providers/payme/payme.provider.ts) lets in, and what it does then.
use qayoda_backend.Base.{
  ℕ, ◌≡◌, refl, true, false, Option, none, some, String, List, ◌++◌, Bool-cases, Option-cases, inl,
  inr, arith, str_eq, eq_iff,
}
use qayoda_backend.Base.Text.{codes, after_prefix, same_bytes}
use qayoda_backend.Billing.Types.{payme}
use qayoda_backend.Billing.Store.{Db, Result, ok, err}
use qayoda_backend.Billing.Payments.{find_by_merchant_ref, log_webhook}
use qayoda_backend.Billing.Fiscal.{FiscalConfig}
use qayoda_backend.Billing.Payme.{
  PaymeParams, PaymeRpc, PaymeReply, as_ref, check_perform, check, statement_of, dispatch,
  handle_body, handle_rpc, answered, authorized, fail, unauthorized,
}
use qayoda_backend.Billing.Webhooks.PaymeEffects.{PaymeEffect, quiet}
use qayoda_backend.Billing.Webhooks.PaymeRuns.{create-Effect, perform-Effect, cancel_txn-Effect}

check_perform-still : (c : FiscalConfig) (p : PaymeParams) (db : Db) → (check_perform c p db).1 ≡ db
unfolding check_perform
check_perform-still c p db =
    elim (Option-cases (find_by_merchant_ref payme (as_ref p.payment_id) db)) [
      | inl absent ↦ rw absent refl
      | inr (x, found) ↦ rw found (ground arith)
    ]

check-still : (p : PaymeParams) (db : Db) → (check p db).1 ≡ db
unfolding check
check-still p db = refl

statement_of-still : (p : PaymeParams) (db : Db) → (statement_of p db).1 ≡ db
unfolding statement_of
statement_of-still p db = ground arith

dispatch-Effect :
    (c : FiscalConfig) (method : String) (p : PaymeParams) (db : Db)
    → PaymeEffect c method p db (dispatch c method p db).1
unfolding dispatch
dispatch-Effect c method p db = elim (Bool-cases (str_eq method "CheckPerformTransaction")) [
  | inl m ↦ rw (m, check_perform-still c p db) quiet
  | inr m1 ↦ elim (Bool-cases (str_eq method "CreateTransaction")) [
    | inl m ↦ rw (m1, m) (create-Effect c method p db ((eq_iff method "CreateTransaction").0 m))
    | inr m2 ↦ elim (Bool-cases (str_eq method "PerformTransaction")) [
      | inl m ↦
          rw (m1, m2, m) (perform-Effect c method p db ((eq_iff method "PerformTransaction").0 m))
      | inr m3 ↦ elim (Bool-cases (str_eq method "CancelTransaction")) [
        | inl m ↦
            rw (m1, m2, m3, m)
              (cancel_txn-Effect c method p db ((eq_iff method "CancelTransaction").0 m))
        | inr m4 ↦ elim (Bool-cases (str_eq method "CheckTransaction")) [
          | inl m ↦ rw (m1, m2, m3, m4, m, check-still p db) quiet
          | inr m5 ↦ elim (Bool-cases (str_eq method "GetStatement")) [
            | inl m ↦ rw (m1, m2, m3, m4, m5, m, statement_of-still p db) quiet
            | inr m6 ↦ rw (m1, m2, m3, m4, m5, m6) quiet
          ]
        ]
      ]
    ]
  ]
]

-- What the body of a call may leave: it names no method or has no parameters, or the method's effect.
pub data PaymeBody (c : FiscalConfig) (rpc : PaymeRpc) (db : Db) : Db → Type 0 where
  empty_body : PaymeBody c rpc db db
  called :
      (method : String) (p : PaymeParams) (t : Db)
      → rpc.method ≡ some method
      → rpc.params ≡ some p
      → PaymeEffect c method p db t
      → PaymeBody c rpc db t

handle_body-Body :
    (c : FiscalConfig) (rpc : PaymeRpc) (db : Db) → PaymeBody c rpc db (handle_body c rpc db).1
unfolding handle_body
handle_body-Body c rpc db = elim (Option-cases rpc.method) [
  | inl absent ↦ rw absent empty_body
  | inr (method, named) ↦ elim (Bool-cases (str_eq method "")) [
    | inl blank ↦ rw (named, blank) empty_body
    | inr given ↦ elim (Option-cases rpc.params) [
      | inl absent ↦ rw (named, given, absent) empty_body
      | inr (p, filled) ↦
          let same : handle_body c rpc db ≡ dispatch c method p db =
            rw (named, given, filled) refl in
          rw same (called method p _ named filled (dispatch-Effect c method p db))
    ]
  ]
]

-- What Payme's webhook answers and leaves.
pub data PaymeHandled (c : FiscalConfig) (base64 : List ℕ → List ℕ) (key header : Option String)
    (rpc : PaymeRpc) (db : Db) : PaymeReply × Db → Type 0 where
  turned_away :
      PaymeHandled c base64 key header rpc db (fail unauthorized, log_webhook payme false db)
  let_in :
      (secret given : String) (credentials : List ℕ) (reply : PaymeReply) (t : Db)
      → key ≡ some secret
      → str_eq secret "" ≡ false
      → header ≡ some given
      → after_prefix (codes "Basic ") (codes given) ≡ some credentials
      → same_bytes (codes "Paycom:" ++ codes secret) (base64 credentials) ≡ true
      → PaymeBody c rpc db t
      → PaymeHandled c base64 key header rpc db (reply, log_webhook payme true t)

authorized-parts :
    (base64 : List ℕ → List ℕ) (key header : Option String)
    → authorized base64 key header ≡ true
    → (secret : String) × (given : String) × (credentials : List ℕ) × (key ≡ some secret)
      × (str_eq secret "" ≡ false)
      × (header ≡ some given)
      × (after_prefix (codes "Basic ") (codes given) ≡ some credentials)
      × (same_bytes (codes "Paycom:" ++ codes secret) (base64 credentials) ≡ true)
unfolding authorized
authorized-parts base64 none header h = absurd (cc h)
authorized-parts base64 (some key) none h = absurd (cc h)
authorized-parts base64 (some key) (some header) h = elim (Bool-cases (str_eq key "")) [
  | inl blank ↦ absurd (cc (rw (blank, authorized) at h))
  | inr filled ↦ elim (Option-cases (after_prefix (codes "Basic ") (codes header))) [
    | inl other ↦ absurd (cc (rw (filled, other, authorized) at h))
    | inr (given, basic) ↦
        (key, header, given, refl, filled, refl, basic, rw (filled, basic, authorized) at h)
  ]
]

-- Whatever Payme sends, either it is answered -32504 and only the audit row of a call that is not
-- authorized is written; or its header has the configured key, which is not blank, and besides the
-- audit row the call leaves at most one transition, of a payment that it names by its transaction or
-- order: CreateTransaction prepares a created order of the amount that is asked, PerformTransaction
-- marks one as paid that is neither paid nor cancelled and not over twelve hours old,
-- CancelTransaction cancels a prepared one or reverses a paid one, and a CreateTransaction or
-- a PerformTransaction cancels one that is open and over twelve hours old.
pub payme_handle_rpc-Handled :
    (c : FiscalConfig) (base64 : List ℕ → List ℕ) (key header : Option String) (rpc : PaymeRpc)
    (db : Db)
    → PaymeHandled c base64 key header rpc db (handle_rpc c base64 key header rpc db)
unfolding handle_rpc
payme_handle_rpc-Handled c base64 key header rpc db =
    elim (Bool-cases (authorized base64 key header)) [
      | inr refused ↦ rw refused turned_away
      | inl good ↦
          let (secret, given, credentials, e1, e2, e3, e4, e5) =
            authorized-parts base64 key header good in
          rw good (
            answered_lem (handle_body c rpc db)
              (λ r t b. let_in secret given credentials r t e1 e2 e3 e4 e5 b)
              (handle_body-Body c rpc db))
    ]
  where
    answered_lem :
        (r : Result PaymeReply × Db)
        → ((reply : PaymeReply) (t : Db)
            → PaymeBody c rpc db t
            → PaymeHandled c base64 key header rpc db (reply, log_webhook payme true t))
        → PaymeBody c rpc db r.1
        → PaymeHandled c base64 key header rpc db (answered true r)
    answered_lem (ok a, t) k b = k a t b
    answered_lem (err e, t) k b = k _ t b
