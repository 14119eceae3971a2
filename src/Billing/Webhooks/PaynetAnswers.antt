-- ===== src/Billing/Webhooks/PaynetAnswers.antt =====
-- What Paynet's PerformTransaction vouches for (billing/providers/paynet/paynet.provider.ts).
use qayoda_backend.Base.{
  ◌+◌, ◌==◌, ==_iff, sym, ap, ◌∙◌, refl, find?, any, is_text, ◌&&◌, ℕ, ◌*◌, ◌≤◌, ◌≡◌, true, ◌||◌,
  not, Option, none, some, String, [], is_some, Bool-cases, Option-cases, inl, inr, arith,
  or_default, pos,
}
use qayoda_backend.Billing.Types.{
  Payment, User, paynet, body, topup_min, topup_max, PaymentStatus, provider_eq, Payload,
  FiscalStatus, PaymentProviderKind,
}
use qayoda_backend.Billing.Store.{Db, Result, ok, Result-cases}
use qayoda_backend.Billing.Payments.{
  find_by_provider_txn, record_push_payment, find_by_id, pushed_row, credit_topup,
}
use qayoda_backend.Billing.Json.{is_undefined, number_of}
use qayoda_backend.Billing.Paynet.{
  PaynetConfig, PaynetParams, performed, PaynetFields, find_payer, txn_id_of, service_ok,
  push_amount, perform, perform_push, performed_reply, fiscal_status, PaynetReply,
}
use qayoda_backend.Billing.Webhooks.PaynetRuns.{Sum-cases, push_amount-bounds}
use qayoda_backend.Billing.Wallet.Ledger.{balance_of, opened, get_balance_lem}
use qayoda_backend.Billing.Settlement.Effects.{credit_topup-Moves, credit_topup-balance}
use qayoda_backend.Billing.Settlement.Outcomes.{bonus_of}
use qayoda_backend.Billing.Settlement.Inserted.{inserted as inserted_in}

-- What a push that has been recorded left.
module _ (provider : PaymentProviderKind) (user amount : ℕ) (txn : String) (payload : Payload)
    (fiscal : FiscalStatus) (db : Db) where
  record IsRecorded (x : Payment) (t : Db) : Type 0 where
    row :
        x
        ≡ pushed_row db.now db.next_id db.next_prepare provider user amount
            (bonus_of amount db)
            txn
            payload
            fiscal
    found : find_by_id x.id t ≡ some x
    credited : balance_of user t ≡ balance_of user db + amount + bonus_of amount db

  recorded :
      (x : Payment) (t : Db)
      → record_push_payment provider user amount txn payload fiscal db ≡ (ok (some x), t)
      → IsRecorded x t
  unfolding record_push_payment find_by_id
  recorded x t e =
      elim (Bool-cases
        (any (λ q. provider_eq q.provider provider && is_text txn q.provider_txn_id) db.payments)) [
          | inl dup ↦ absurd (cc (rw dup at e))
          | inr free ↦
              let rows = inserted_in db provider user amount txn payload fiscal in
              let bonus = bonus_of amount db in
              let row =
                pushed_row db.now db.next_id db.next_prepare provider user amount bonus txn payload
                  fiscal in
              elim (Result-cases (credit_topup user amount bonus db.next_id rows)) [
                | inr (f, after, no_credit) ↦ absurd (cc (rw (free, no_credit) at e))
                | inl (b, after, done) ↦
                    let m = credit_topup-Moves user amount bonus db.next_id rows after b done in
                    let w = credit_topup-balance user amount bonus db.next_id rows after b done in
                    let there : find? (λ q. q.id == db.next_id) after.payments ≡ some row =
                      rw (m.same_payments, (==_iff db.next_id db.next_id).1 refl) refl in
                    let r = rw (free, done, there) at e in
                    let same : row ≡ x = cc r in
                    let last = ap (λ (q : Result (Option Payment) × Db). q.1) r in
                    rw (← same, ← last)
                      record { row = refl; found = there; credited = ground (arith, w.0, w.1) }
              ]
        ]

module _ (c : PaynetConfig) (p : PaynetParams) (id time : ℕ) (fields : PaynetFields) (balance : ℕ)
    (db db' : Db) where
  -- The push that the call makes.
  abbrev pub pushing : ℕ → String → User → Result (Option Payment) × Db
  pushing amount txn u = record_push_payment paynet u.id amount txn body (fiscal_status c) db

  inserted :
      (fs : PaynetFields) (amount : ℕ) (txn : String) (u : User)
      → perform_push c fs amount txn u db ≡ (ok (performed id time fields balance), db')
      → (x : Payment) × (t : Db) × (pushing amount txn u ≡ (ok (some x), t))
        × (x.prepare_id ≡ id)
        × (or_default x.paid_at t.now ≡ time)
        × (fs ≡ fields)
        × (balance ≡ balance_of u.id t)
        × (db' ≡ opened u.id t)
  unfolding perform_push performed_reply
  inserted fs amount txn u h = elim (Result-cases (pushing amount txn u)) [
    | inr (e, t, failed) ↦ absurd (cc (rw (failed, perform_push) at h))
    | inl (none, t, lost) ↦ absurd (cc (rw (lost, perform_push) at h))
    | inl (some x, t, won) ↦
        let e = rw (won, perform_push, get_balance_lem u.id t) at h in
        let reply = ap (λ (q : Result PaynetReply × Db). q.0) e in
        (
          x,
          t,
          won,
          cc reply,
          cc reply,
          cc reply,
          cc reply,
          sym (ap (λ (q : Result PaynetReply × Db). q.1) e),
        )
  ]

  -- What a PerformTransaction of Paynet that is answered as performed has done.
  pub record Vouched : Type 0 where
    amount : ℕ
    txn : String
    payer : User
    payment : Payment
    served : service_ok c p.service_id ≡ true
    asked : number_of p.amount ≡ some (pos amount)
    enough : topup_min * 100 ≤ amount
    not_too_much : amount ≤ topup_max * 100
    named : txn_id_of p.transaction_id ≡ some txn
    new : find_by_provider_txn paynet txn db ≡ none
    found : find_payer c (or_default p.fields []) db ≡ inr payer
    -- The row in the new state, and its columns.
    recorded_row : find_by_id payment.id db' ≡ some payment
    of_paynet : payment.provider ≡ paynet
    of_payer : payment.user_id ≡ payer.id
    of_amount : payment.amount ≡ amount
    of_bonus : payment.bonus_amount ≡ bonus_of amount db
    is_paid : payment.status ≡ PaymentStatus.paid
    of_txn : payment.provider_txn_id ≡ some txn
    -- The answer, and the money.
    numbered : payment.prepare_id ≡ id
    at_time : time ≡ db.now
    echoed : or_default p.fields [] ≡ fields
    credited : balance_of payer.id db' ≡ balance_of payer.id db + amount + bonus_of amount db
    told : balance ≡ balance_of payer.id db'

  vouched :
      (amount : ℕ) (txn : String) (u : User)
      → service_ok c p.service_id ≡ true
      → push_amount p.amount ≡ inr amount
      → txn_id_of p.transaction_id ≡ some txn
      → find_by_provider_txn paynet txn db ≡ none
      → find_payer c (or_default p.fields []) db ≡ inr u
      → perform_push c (or_default p.fields []) amount txn u db
        ≡ (ok (performed id time fields balance), db')
      → Vouched
  unfolding find_by_id
  vouched amount txn u served fits named new found h =
      let (x, t, pushed, number, moment, echo, tells, last) =
        inserted (or_default p.fields []) amount txn u h in
      let r = recorded paynet u.id amount txn body (fiscal_status c) db x t pushed in
      let bounds = push_amount-bounds p.amount amount fits in
      record {
        amount = amount;
        txn = txn;
        payer = u;
        payment = x;
        served = served;
        asked = bounds.0;
        enough = bounds.1;
        not_too_much = bounds.2;
        named = named;
        new = new;
        found = found;
        recorded_row = rw last r.found;
        of_paynet = ap (λ (q : Payment). q.provider) r.row;
        of_payer = ap (λ (q : Payment). q.user_id) r.row;
        of_amount = ap (λ (q : Payment). q.amount) r.row;
        of_bonus = ap (λ (q : Payment). q.bonus_amount) r.row;
        is_paid = ap (λ (q : Payment). q.status) r.row;
        of_txn = ap (λ (q : Payment). q.provider_txn_id) r.row;
        numbered = number;
        at_time = sym moment ∙ ap (λ (q : Payment). or_default q.paid_at t.now) r.row;
        echoed = echo;
        credited = rw last (ground (arith, r.credited));
        told = rw last (ground (arith, tells));
      }

  -- PerformTransaction is answered as performed only if the service is ours, the amount is a whole
  -- number of tiyin within the bounds of a top-up, the transaction was not known and its payer is a
  -- user who may pay. Then the new state has a paid payment of that user, amount, bonus and
  -- transaction under the number of the answer, the user's balance has amount and bonus added, and
  -- the answer has the time of the call, the fields that were sent and the new balance.
  pub paynet-perform_ok : perform c p db ≡ (ok (performed id time fields balance), db') → Vouched
  unfolding perform
  paynet-perform_ok h =
      elim (Bool-cases (
        is_undefined p.service_id
        || is_undefined p.amount
        || is_undefined p.transaction_id
        || not (is_some p.fields))) [
          | inl missing ↦ absurd (cc (rw (missing, perform) at h))
          | inr given ↦ elim (Bool-cases (service_ok c p.service_id)) [
            | inr other ↦ absurd (cc (rw (given, other, perform) at h))
            | inl served ↦ elim (Option-cases (txn_id_of p.transaction_id)) [
              | inl malformed ↦ absurd (cc (rw (given, served, malformed, perform) at h))
              | inr (txn, named) ↦ elim (Sum-cases (push_amount p.amount)) [
                | inl (code, refused) ↦
                    absurd (cc (rw (given, served, named, refused, perform) at h))
                | inr (amount, fits) ↦
                    elim (Option-cases (
                      find_by_provider_txn paynet (or_default (txn_id_of p.transaction_id) "")
                        db)) [
                          | inr (q, taken) ↦
                              absurd (cc (rw (given, served, named, fits, taken, perform) at h))
                          | inl new ↦ elim (Sum-cases (find_payer c (or_default p.fields []) db)) [
                            | inl (code, refused) ↦
                                absurd
                                  (cc (rw (given, served, named, fits, new, refused, perform) at h))
                            | inr (u, found) ↦
                                vouched amount txn u served fits named (rw named at new) found
                                  (rw (given, served, named, fits, new, found, perform) at h)
                          ]
                        ]
              ]
            ]
          ]
        ]
