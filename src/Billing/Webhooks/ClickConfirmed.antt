-- ===== src/Billing/Webhooks/ClickConfirmed.antt =====
-- What Click's Complete (billing/providers/click/click.provider.ts) confirms.

use qayoda_backend.Base.{
  map, ◌+◌, ◌≤◌, str_eq, sym, ap, ℕ, ◌≡◌, ◌≢◌, Bool, true, false, inl, inr, Option, none, some,
  String, arith, Bool-cases, Option-cases, is_text, if◌then◌else◌,
}
use qayoda_backend.Billing.Types.{Payment, PaymentStatus, click, body, pending, FiscalStatus}
use qayoda_backend.Billing.Store.{Db, Result, Result-cases}
use qayoda_backend.Billing.Payments.{log_webhook, mark_paid, cancel, find_by_prepare_id}
use qayoda_backend.Billing.Fiscal.{FiscalConfig, enabled as fiscal_enabled}
use qayoda_backend.Billing.Json.{show_ℤ, show_ℕ}
use qayoda_backend.Billing.Click.{
  ClickBody, ClickCode, field, verify_signature, find_by_click_ref, refusal, belongs, click_error,
  complete_read, complete, handle_webhook, lower, click_ref, ClickReply,
}
use qayoda_backend.Base.Text.{codes, same_bytes, tiyin_of_text}
use qayoda_backend.Billing.Wallet.Ledger.{balance_of}
use qayoda_backend.Billing.Settlement.Invariant.{IsSound}
use qayoda_backend.Billing.Settlement.Outcomes.{bonus_of}
use qayoda_backend.Billing.Settlement.Written.{IsMarked, mark_paid-IsMarked}
use qayoda_backend.Billing.Lifecycle.Once.{mark_paid-credits}
use qayoda_backend.Billing.Webhooks.ClickChecked.{
  is_close, refusal-amount, belongs-parts, signed_text, signed-parts, referred,
}

-- The transition that a Complete asks for.
abbrev pub marking : FiscalConfig → ClickBody → Db → Payment → Result Bool × Db
marking c b db x =
    mark_paid click x (field b.click_trans_id) body
      (if fiscal_enabled c then pending else FiscalStatus.none) db.now b.click_paydoc_id db

module _ (c : FiscalConfig) (b : ClickBody) (db db' : Db) (m : Option ℕ) where
  refusal-ok : (x : Payment) → refusal b x ≢ some ClickCode.ok
  unfolding refusal
  refusal-ok x = ground arith

  complete_read-ok :
      (x : Payment)
      → complete_read c b x db ≡ (Result.ok record { error = ClickCode.ok; merchant_id = m }, db')
      → (refusal b x ≡ none)
        × (belongs b x ≡ true)
        × (click_error b.error ≡ none)
        × (m ≡ some x.prepare_id)
        × (marking c b db x ≡ (Result.ok true, db'))
  unfolding complete_read
  complete_read-ok x e = elim (Option-cases (refusal b x)) [
    | inr (code, refused) ↦ absurd (refusal-ok x (cc (rw (refused, complete_read) at e)))
    | inl clear ↦ elim (Bool-cases (belongs b x)) [
      | inr other ↦ absurd (cc (rw (clear, other, complete_read) at e))
      | inl own ↦ elim (Option-cases (click_error b.error)) [
        | inr (code, failed) ↦
            elim (Result-cases
              (cancel click x "provider_error" (some (show_ℤ code)) (some body) db.now db)) [
                | inl (a, t, done) ↦ absurd (cc (rw (clear, own, failed, done, complete_read) at e))
                | inr (f, t, done) ↦ absurd (cc (rw (clear, own, failed, done, complete_read) at e))
              ]
        | inl fine ↦ elim (Result-cases (marking c b db x)) [
          | inl (true, t, done) ↦
              let same : t ≡ db' = cc (rw (clear, own, fine, done, complete_read) at e) in
              (
                clear,
                own,
                fine,
                cc (rw (clear, own, fine, done, complete_read) at e),
                rw (← same) done,
              )
          | inl (false, t, done) ↦ absurd (cc (rw (clear, own, fine, done, complete_read) at e))
          | inr (f, t, done) ↦ absurd (cc (rw (clear, own, fine, done, complete_read) at e))
        ]
      ]
    ]
  ]

complete-ok :
    (c : FiscalConfig) (b : ClickBody) (valid : Bool) (db t : Db) (m : Option ℕ)
    → complete c b valid db ≡ (Result.ok record { error = ClickCode.ok; merchant_id = m }, t)
    → (valid ≡ true)
      × ((x : Payment) × (find_by_click_ref b.merchant_trans_id db ≡ some x)
          × (complete_read c b x db
              ≡ (Result.ok record { error = ClickCode.ok; merchant_id = m }, t)))
unfolding complete
complete-ok c b valid db t m e = elim (Bool-cases (is_text "1" b.action)) [
  | inr other ↦ absurd (cc (rw (other, complete) at e))
  | inl action ↦ elim (Bool-cases valid) [
    | inr unsigned ↦ absurd (cc (rw (action, unsigned, complete) at e))
    | inl signed ↦ elim (Option-cases (find_by_click_ref b.merchant_trans_id db)) [
      | inl absent ↦ absurd (cc (rw (action, signed, absent, complete) at e))
      | inr (x, found) ↦ (signed, (x, found, rw (action, signed, found, complete) at e))
    ]
  ]
]

module _ (md5 : String → String) (secret : Option String) (b : ClickBody) (m : Option ℕ)
    (db : Db) where
  -- What an answer 0 to a Complete tells, `t` being the state it left before its audit row.
  pub record IsConfirmed (t : Db) : Type 0 where
    pub key : String
    pub configured : secret ≡ some key
    pub not_blank : str_eq key "" ≡ false
    pub signed :
        same_bytes (codes (md5 (signed_text true b key))) (map lower (codes (field b.sign_string)))
        ≡ true
    pub reference : String
    pub order : ℕ
    pub refers : b.merchant_trans_id ≡ some reference
    pub numbered : click_ref reference ≡ some order
    pub payment : Payment
    pub found : find_by_prepare_id click order db ≡ some payment
    pub amount_text : String
    pub tiyin : ℕ
    pub given : b.amount ≡ some amount_text
    pub read : tiyin_of_text amount_text ≡ some tiyin
    pub not_more : tiyin ≤ payment.amount + 1
    pub not_less : payment.amount ≤ tiyin + 1
    pub prepared : payment.status ≡ PaymentStatus.prepared
    pub same_transaction : payment.provider_txn_id ≡ some (field b.click_trans_id)
    pub same_number : show_ℕ payment.prepare_id ≡ field b.merchant_prepare_id
    pub no_error : click_error b.error ≡ none
    pub answered_number : m ≡ some payment.prepare_id
    pub credited :
        balance_of payment.user_id t
        ≡ balance_of payment.user_id db + payment.amount + bonus_of payment.amount db
    pub row : Payment
    pub fiscal : FiscalStatus
    pub marked : IsMarked click payment db t (field b.click_trans_id) fiscal db.now row

  confirmed :
      (c : FiscalConfig) (t : Db)
      → IsSound db
      → complete c b (verify_signature md5 secret b true) db
        ≡ (Result.ok record { error = ClickCode.ok; merchant_id = m }, t)
      → IsConfirmed t
  confirmed c t h e =
      let passed = complete-ok c b (verify_signature md5 secret b true) db t m e in
      let sign = signed-parts md5 secret b true passed.0 in
      let x : Payment = passed.1.0 in
      let ref = referred b.merchant_trans_id db x passed.1.1 in
      let r = complete_read-ok c b db t m x passed.1.2 in
      let near = is_close b.amount x.amount (refusal-amount b x r.0) in
      let own = belongs-parts b x r.1 in
      let receipt : FiscalStatus = if fiscal_enabled c then pending else FiscalStatus.none in
      let money =
        mark_paid-credits click x (field b.click_trans_id) body receipt db.now b.click_paydoc_id db
          t r.4 in
      let q =
        mark_paid-IsMarked click x db t (field b.click_trans_id) body receipt db.now
          b.click_paydoc_id h.distinct r.4 in
      record {
        key = sign.0;
        configured = sign.1;
        not_blank = sign.2;
        signed = sign.3;
        reference = ref.0;
        order = ref.1;
        refers = ref.2;
        numbered = ref.3;
        payment = x;
        found = ref.4;
        amount_text = near.0;
        tiyin = near.1;
        given = near.2;
        read = near.3;
        not_more = near.4;
        not_less = near.5;
        prepared = own.1;
        same_transaction = own.2;
        same_number = own.0;
        no_error = r.2;
        answered_number = r.3;
        credited = money.0;
        row = q.0;
        fiscal = receipt;
        marked = q.1;
      }

  -- In a sound state, when Click's Complete is answered 0, then: the body is signed with the shop's
  -- key, which is configured and not blank; its reference is the number of a payment of Click's that
  -- was prepared by the Click transaction and under the number that it names, and whose amount is
  -- at most a tiyin off; it reports no error; the answer has the payment's number; and the amount
  -- and its bonus have been added to the balance and the ledger and the row marked as paid, all
  -- before the audit row, which is the last that is written.
  pub click-complete_ok :
      (c : FiscalConfig) (db' : Db)
      → IsSound db
      → handle_webhook c md5 secret true b db
        ≡ (record { error = ClickCode.ok; merchant_id = m }, db')
      → (t : Db) × (db' ≡ log_webhook click true t) × IsConfirmed t
  unfolding handle_webhook
  click-complete_ok c db' h e =
      elim (Result-cases (complete c b (verify_signature md5 secret b true) db)) [
        | inr (f, t, failed) ↦
            absurd (cc (ap (λ (r : ClickReply × Db). r.0.error) (rw failed at e)))
        | inl (r, t, done) ↦
            let told = rw done at e in
            let same : r ≡ record { error = ClickCode.ok; merchant_id = m } =
              ap (λ (q : ClickReply × Db). q.0) told in
            let good : complete c b (verify_signature md5 secret b true) db
                ≡ (Result.ok record { error = ClickCode.ok; merchant_id = m }, t) =
              rw same at done in
            let signed = (complete-ok c b (verify_signature md5 secret b true) db t m good).0 in
            (t, rw signed at (sym (ap (λ (q : ClickReply × Db). q.1) told)), confirmed c t h good)
      ]
