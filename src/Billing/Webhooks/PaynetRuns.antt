-- ===== src/Billing/Webhooks/PaynetRuns.antt =====
-- What Paynet's methods (billing/providers/paynet/paynet.provider.ts) may do to the database.
use qayoda_backend.Base.{
  ℕ, ◌*◌, ◌≤◌, ◌≡◌, ◌≢◌, refl, ap, ◌∙◌, Bool, true, false, ◌||◌, not, none, some, String, [],
  Bool-cases, Option-cases, inl, inr, ◌⊎◌, arith, or_default, is_some, pos, negsuc, if◌then◌else◌,
}
use qayoda_backend.Billing.Types.{
  Payment, PaymentStatus, paynet, body, status_eq, User, topup_min, topup_max,
}
use qayoda_backend.Billing.Store.{Db, Result, Result-cases, Action}
use qayoda_backend.Billing.Wallet.Ledger.{opened, get_balance_lem}
use qayoda_backend.Billing.Payments.{find_by_provider_txn, reverse, record_push_payment}
use qayoda_backend.Billing.Json.{Value, is_undefined, number_of}
use qayoda_backend.Billing.Paynet.{
  PaynetConfig, PaynetParams, PaynetReply, find_payer, txn_id_of, service_ok, push_amount,
  perform_push, performed_reply, perform, with_txn, check, or_cannot_cancel, cancel_read, cancel,
  get_information, fiscal_status,
}
use qayoda_backend.Billing.Webhooks.Runs.{step-at}

-- To split on a refusal or a value and keep the equation.
pub Sum-cases : {A B : Type 0} (s : A ⊎ B) → ((a : A) × (s ≡ inl a)) ⊎ ((b : B) × (s ≡ inr b))
Sum-cases (inl a) = inl (a, refl)
Sum-cases (inr b) = inr (b, refl)

pub push_amount-bounds :
    (v : Value) (n : ℕ)
    → push_amount v ≡ inr n
    → (number_of v ≡ some (pos n)) × (topup_min * 100 ≤ n) × (n ≤ topup_max * 100)
unfolding push_amount
push_amount-bounds v n h = elim (Option-cases (number_of v)) [
  | inl nan ↦ absurd (cc (rw (nan, push_amount) at h))
  | inr (negsuc k, read) ↦ absurd (cc (rw (read, push_amount) at h))
  | inr (pos k, read) ↦
      let e = rw (read, push_amount) at h in
      let same : k ≡ n = ground arith in
      (read ∙ ap (λ (m : ℕ). some (pos m)) same, ground arith, ground arith)
]

-- What a call of a method may leave: nothing of it, an opened wallet of its payer, one push for its
-- payer, or one reversal of the payment that it names. A push whose payment is new reads the balance
-- then.
pub data PaynetEffect (c : PaynetConfig) (method : String) (p : PaynetParams) (db : Db)
    : Db → Type 0 where
  quiet : PaynetEffect c method p db db
  looks :
      (u : User)
      → method ≡ "GetInformation"
      → service_ok c p.service_id ≡ true
      → find_payer c (or_default p.fields []) db ≡ inr u
      → PaynetEffect c method p db (opened u.id db)
  pushes :
      (u : User) (amount : ℕ) (txn : String) (reads : Bool)
      → method ≡ "PerformTransaction"
      → service_ok c p.service_id ≡ true
      → number_of p.amount ≡ some (pos amount)
      → topup_min * 100 ≤ amount
      → amount ≤ topup_max * 100
      → txn_id_of p.transaction_id ≡ some txn
      → find_by_provider_txn paynet txn db ≡ none
      → find_payer c (or_default p.fields []) db ≡ inr u
      → PaynetEffect c method p db (
          if reads
          then opened u.id (record_push_payment paynet u.id amount txn body (fiscal_status c) db).1
          else (record_push_payment paynet u.id amount txn body (fiscal_status c) db).1)
  takes_back :
      (x : Payment) (txn : String)
      → method ≡ "CancelTransaction"
      → service_ok c p.service_id ≡ true
      → txn_id_of p.transaction_id ≡ some txn
      → find_by_provider_txn paynet txn db ≡ some x
      → x.status ≢ PaymentStatus.cancelled
      → PaynetEffect c method p db (reverse paynet x "paynet:cancel" none db.now db).1

or_cannot_cancel-still : (r : Result PaynetReply × Db) → (or_cannot_cancel r).1 ≡ r.1
or_cannot_cancel-still r = ground arith

module _ (c : PaynetConfig) (method : String) (p : PaynetParams) (db : Db) where
  abbrev Effect : Db → Type 0
  Effect = PaynetEffect c method p db

  with_txn-Effect :
      (go : String → Action PaynetReply)
      → ((txn : String)
          → service_ok c p.service_id ≡ true
          → txn_id_of p.transaction_id ≡ some txn
          → Effect (go txn db).1)
      → Effect (with_txn c p go db).1
  with_txn-Effect go k =
      elim (Bool-cases (is_undefined p.service_id || is_undefined p.transaction_id)) [
        | inl missing ↦ rw missing quiet
        | inr given ↦ elim (Bool-cases (service_ok c p.service_id)) [
          | inr other ↦ rw (given, other) quiet
          | inl served ↦ elim (Option-cases (txn_id_of p.transaction_id)) [
            | inl malformed ↦ rw (given, served, malformed) quiet
            | inr (txn, named) ↦ rw (given, served, named) (k txn served named)
          ]
        ]
      ]

  cancel_read-Effect :
      (txn : String) (x : Payment)
      → method ≡ "CancelTransaction"
      → service_ok c p.service_id ≡ true
      → txn_id_of p.transaction_id ≡ some txn
      → find_by_provider_txn paynet txn db ≡ some x
      → Effect (cancel_read txn x db).1
  unfolding cancel_read
  cancel_read-Effect txn x m served named found =
      elim (Bool-cases (status_eq x.status PaymentStatus.cancelled)) [
        | inl gone ↦ rw gone quiet
        | inr standing ↦
            rw (standing, or_cannot_cancel-still)
              (step-at Effect _ _ (takes_back x txn m served named found (ground arith))
                (λ a t. refl))
      ]

  pub cancel-Effect : method ≡ "CancelTransaction" → Effect (cancel c p db).1
  unfolding cancel
  cancel-Effect m = with_txn-Effect _ λ txn served named.
      elim (Option-cases (find_by_provider_txn paynet txn db)) [
        | inl absent ↦ rw absent quiet
        | inr (x, found) ↦ rw found (cancel_read-Effect txn x m served named found)
      ]

  pub check-Effect : Effect (check c p db).1
  unfolding check
  check-Effect = with_txn-Effect _ λ txn served named. quiet

  perform_push-Effect :
      (amount : ℕ) (txn : String) (u : User)
      → ((reads : Bool)
          → Effect (
              if reads
              then opened u.id
                  (record_push_payment paynet u.id amount txn body (fiscal_status c) db).1
              else (record_push_payment paynet u.id amount txn body (fiscal_status c) db).1))
      → Effect (perform_push c (or_default p.fields []) amount txn u db).1
  unfolding perform_push performed_reply
  perform_push-Effect amount txn u k =
      elim (Result-cases (record_push_payment paynet u.id amount txn body (fiscal_status c) db)) [
        | inr (e, t, failed) ↦ rw failed (rw failed at (k false))
        | inl (none, t, lost) ↦ rw lost (rw lost at (k false))
        | inl (some x, t, won) ↦ rw (won, get_balance_lem u.id t) (rw won at (k true))
      ]

  pub perform-Effect : method ≡ "PerformTransaction" → Effect (perform c p db).1
  unfolding perform
  perform-Effect m =
      elim (Bool-cases (
        is_undefined p.service_id
        || is_undefined p.amount
        || is_undefined p.transaction_id
        || not (is_some p.fields))) [
          | inl missing ↦ rw missing quiet
          | inr given ↦ elim (Bool-cases (service_ok c p.service_id)) [
            | inr other ↦ rw (given, other) quiet
            | inl served ↦ elim (Option-cases (txn_id_of p.transaction_id)) [
              | inl malformed ↦ rw (given, served, malformed) quiet
              | inr (txn, named) ↦ elim (Sum-cases (push_amount p.amount)) [
                | inl (code, refused) ↦ rw (given, served, named, refused) quiet
                | inr (amount, fits) ↦
                    elim (Option-cases (
                      find_by_provider_txn paynet (or_default (txn_id_of p.transaction_id) "")
                        db)) [
                          | inr (q, taken) ↦ rw (given, served, named, fits, taken) quiet
                          | inl new ↦ elim (Sum-cases (find_payer c (or_default p.fields []) db)) [
                            | inl (code, refused) ↦
                                rw (given, served, named, fits, new, refused) quiet
                            | inr (u, found) ↦
                                let bounds = push_amount-bounds p.amount amount fits in
                                rw (given, served, named, fits, new, found)
                                  (perform_push-Effect amount txn u λ reads.
                                    pushes u amount txn reads m served bounds.0 bounds.1 bounds.2
                                      named (rw named at new) found)
                          ]
                        ]
              ]
            ]
          ]
        ]

  pub get_information-Effect : method ≡ "GetInformation" → Effect (get_information c p db).1
  unfolding get_information
  get_information-Effect m =
      elim (Bool-cases (is_undefined p.service_id || not (is_some p.fields))) [
        | inl missing ↦ rw missing quiet
        | inr given ↦ elim (Bool-cases (service_ok c p.service_id)) [
          | inr other ↦ rw (given, other) quiet
          | inl served ↦ elim (Sum-cases (find_payer c (or_default p.fields []) db)) [
            | inl (code, refused) ↦ rw (given, served, refused) quiet
            | inr (u, found) ↦
                rw (given, served, found, get_balance_lem u.id db) (looks u m served found)
          ]
        ]
      ]
