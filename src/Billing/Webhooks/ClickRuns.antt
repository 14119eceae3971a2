-- ===== src/Billing/Webhooks/ClickRuns.antt =====
-- Whom Click's webhook (billing/providers/click/click.provider.ts) trusts, and what it does then.
use qayoda_backend.Base.{
  ℕ, ◌+◌, ◌≤◌, ◌≡◌, ◌≢◌, refl, Bool, true, false, Option, none, some, String, map, Bool-cases,
  Option-cases, inl, inr, is_text, if◌then◌else◌, str_eq, arith, ℤ,
}
use qayoda_backend.Base.Text.{codes, same_bytes, tiyin_of_text}
use qayoda_backend.Billing.Types.{Payment, PaymentStatus, click, body, FiscalStatus, pending}
use qayoda_backend.Billing.Store.{Db, Result, err}
use qayoda_backend.Billing.Fiscal.{FiscalConfig, enabled}
use qayoda_backend.Billing.Json.{show_ℕ, show_ℤ}
use qayoda_backend.Billing.Payments.{
  find_by_prepare_id, mark_prepared, mark_paid, cancel, log_webhook,
}
use qayoda_backend.Billing.Click.{
  ClickBody, ClickReply, field, verify_signature, click_ref, find_by_click_ref, refusal, belongs,
  click_error, prepare_read, prepare, complete_read, complete, answered, handle_webhook, lower,
}
use qayoda_backend.Billing.Webhooks.Runs.{step-at}
use qayoda_backend.Billing.Webhooks.ClickChecked.{
  signed_text, signed-parts, is_close, refusal-amount, belongs-parts, referred,
}

-- The payment that a body names, still open and of the body's amount, up to a tiyin.
pub record IsAsked (b : ClickBody) (db : Db) (x : Payment) : Type 0 where
  reference : String
  pub order : ℕ
  refers : b.merchant_trans_id ≡ some reference
  numbered : click_ref reference ≡ some order
  pub found : find_by_prepare_id click order db ≡ some x
  unpaid : x.status ≢ PaymentStatus.paid
  standing : x.status ≢ PaymentStatus.cancelled
  amount_text : String
  tiyin : ℕ
  given : b.amount ≡ some amount_text
  read : tiyin_of_text amount_text ≡ some tiyin
  not_more : tiyin ≤ x.amount + 1
  not_less : x.amount ≤ tiyin + 1

-- It was prepared by the Click transaction and under the number that the body names.
pub record IsOwn (b : ClickBody) (x : Payment) : Type 0 where
  number : show_ℕ x.prepare_id ≡ field b.merchant_prepare_id
  prepared : x.status ≡ PaymentStatus.prepared
  transaction : x.provider_txn_id ≡ some (field b.click_trans_id)

-- What a signed callback may leave: nothing of it, or one transition of the payment that it names.
pub data ClickEffect (c : FiscalConfig) (is_complete : Bool) (b : ClickBody) (db : Db)
    : Db → Type 0 where
  quiet : ClickEffect c is_complete b db db
  prepares :
      (x : Payment)
      → is_complete ≡ false
      → IsAsked b db x
      → ClickEffect c is_complete b db
          (mark_prepared click x (field b.click_trans_id) body db.now b.click_paydoc_id db).1
  fails :
      (x : Payment) (e : ℤ)
      → is_complete ≡ true
      → IsAsked b db x
      → IsOwn b x
      → click_error b.error ≡ some e
      → ClickEffect c is_complete b db
          (cancel click x "provider_error" (some (show_ℤ e)) (some body) db.now db).1
  pays :
      (x : Payment)
      → is_complete ≡ true
      → IsAsked b db x
      → IsOwn b x
      → click_error b.error ≡ none
      → ClickEffect c is_complete b db
          (mark_paid click x
            (field b.click_trans_id)
            body
            (if enabled c then pending else FiscalStatus.none)
            db.now
            b.click_paydoc_id
            db).1

refusal-open :
    (b : ClickBody) (x : Payment)
    → refusal b x ≡ none
    → (x.status ≢ PaymentStatus.paid) × (x.status ≢ PaymentStatus.cancelled)
unfolding refusal
refusal-open b x e = (ground arith, ground arith)

asked :
    (b : ClickBody) (db : Db) (x : Payment)
    → find_by_click_ref b.merchant_trans_id db ≡ some x
    → refusal b x ≡ none
    → IsAsked b db x
asked b db x found clear =
    let ref = referred b.merchant_trans_id db x found in
    let near = is_close b.amount x.amount (refusal-amount b x clear) in
    record {
      reference = ref.0;
      order = ref.1;
      refers = ref.2;
      numbered = ref.3;
      found = ref.4;
      unpaid = (refusal-open b x clear).0;
      standing = (refusal-open b x clear).1;
      amount_text = near.0;
      tiyin = near.1;
      given = near.2;
      read = near.3;
      not_more = near.4;
      not_less = near.5;
    }

module _ (c : FiscalConfig) (b : ClickBody) (db : Db) where
  prepare_read-Effect :
      (x : Payment)
      → find_by_click_ref b.merchant_trans_id db ≡ some x
      → ClickEffect c false b db (prepare_read b x db).1
  unfolding prepare_read
  prepare_read-Effect x found = elim (Option-cases (refusal b x)) [
    | inr (code, refused) ↦ rw (refused, prepare_read) quiet
    | inl clear ↦
        rw (clear, prepare_read)
          (step-at (ClickEffect c false b db) _ _ (prepares x refl (asked b db x found clear))
            (λ a t. refl))
  ]

  prepare-Effect : (valid : Bool) → valid ≡ true → ClickEffect c false b db (prepare b valid db).1
  unfolding prepare
  prepare-Effect valid signed = elim (Bool-cases (is_text "0" b.action)) [
    | inr other ↦ rw other quiet
    | inl action ↦ elim (Option-cases (find_by_click_ref b.merchant_trans_id db)) [
      | inl absent ↦ rw (action, signed, absent) quiet
      | inr (x, found) ↦ rw (action, signed, found) (prepare_read-Effect x found)
    ]
  ]

  complete_read-Effect :
      (x : Payment)
      → find_by_click_ref b.merchant_trans_id db ≡ some x
      → ClickEffect c true b db (complete_read c b x db).1
  unfolding complete_read
  complete_read-Effect x found = elim (Option-cases (refusal b x)) [
    | inr (code, refused) ↦ rw (refused, complete_read) quiet
    | inl clear ↦ elim (Bool-cases (belongs b x)) [
      | inr other ↦ rw (clear, complete_read, other) quiet
      | inl own ↦
          let parts = belongs-parts b x own in
          let mine : IsOwn b x = record {
            number = parts.0;
            prepared = parts.1;
            transaction = parts.2;
          } in
          elim (Option-cases (click_error b.error)) [
            | inr (e, failed) ↦
                rw (clear, complete_read, own, failed)
                  (step-at (ClickEffect c true b db) _ _
                    (fails x e refl (asked b db x found clear) mine failed) (λ a t. refl))
            | inl fine ↦
                rw (clear, complete_read, own, fine)
                  (step-at (ClickEffect c true b db) _ _
                    (pays x refl (asked b db x found clear) mine fine) (λ a t. refl))
          ]
    ]
  ]

  complete-Effect :
      (valid : Bool) → valid ≡ true → ClickEffect c true b db (complete c b valid db).1
  unfolding complete
  complete-Effect valid signed = elim (Bool-cases (is_text "1" b.action)) [
    | inr other ↦ rw other quiet
    | inl action ↦ elim (Option-cases (find_by_click_ref b.merchant_trans_id db)) [
      | inl absent ↦ rw (action, signed, absent) quiet
      | inr (x, found) ↦ rw (action, signed, found) (complete_read-Effect x found)
    ]
  ]

unsigned-still :
    (c : FiscalConfig) (b : ClickBody) (db : Db)
    → ((complete c b false db).1 ≡ db) × ((prepare b false db).1 ≡ db)
unfolding complete prepare
unsigned-still c b db = (
  elim (Bool-cases (is_text "1" b.action)) [ inl a ↦ rw a refl | inr a ↦ rw a refl ],
  elim (Bool-cases (is_text "0" b.action)) [ inl a ↦ rw a refl | inr a ↦ rw a refl ],
)

-- What Click's webhook leaves.
pub data ClickHandled (c : FiscalConfig) (md5 : String → String) (secret : Option String)
    (is_complete : Bool) (b : ClickBody) (db : Db) : Db → Type 0 where
  unsigned : ClickHandled c md5 secret is_complete b db (log_webhook click false db)
  signed :
      (key : String) (t : Db)
      → secret ≡ some key
      → str_eq key "" ≡ false
      → same_bytes
          (codes (md5 (signed_text is_complete b key)))
          (map lower (codes (field b.sign_string)))
        ≡ true
      → ClickEffect c is_complete b db t
      → ClickHandled c md5 secret is_complete b db (log_webhook click true t)

answered-logs :
    (valid : Bool) (r : Result ClickReply × Db) → (answered valid r).1 ≡ log_webhook click valid r.1
answered-logs valid (Result.ok a, t) = refl
answered-logs valid (err e, t) = refl

-- Whatever Click sends, either only the audit row of a callback that is not signed is written; or it
-- is signed with the shop's key, which is configured and not blank, and besides the audit row it
-- leaves at most one transition, of the payment of Click's that it names, which is neither paid nor
-- cancelled and whose amount is at most a tiyin off: a Prepare prepares it, and a Complete, if the
-- payment was prepared by the same Click transaction under the number that is named, marks it as
-- paid, or cancels it when Click reports an error.
pub click_handle_webhook-Handled :
    (c : FiscalConfig) (md5 : String → String) (secret : Option String) (is_complete : Bool)
    (b : ClickBody) (db : Db)
    → ClickHandled c md5 secret is_complete b db (handle_webhook c md5 secret is_complete b db).1
unfolding handle_webhook
click_handle_webhook-Handled c md5 secret true b db =
    elim (Bool-cases (verify_signature md5 secret b true)) [
      | inr bad ↦
          rw (bad, answered-logs false (complete c b false db), (unsigned-still c b db).0) unsigned
      | inl good ↦
          let sign = signed-parts md5 secret b true good in
          rw (good, answered-logs true (complete c b true db))
            (signed sign.0 (complete c b true db).1 sign.1 sign.2 sign.3
              (complete-Effect c b db true refl))
    ]
click_handle_webhook-Handled c md5 secret false b db =
    elim (Bool-cases (verify_signature md5 secret b false)) [
      | inr bad ↦
          rw (bad, answered-logs false (prepare b false db), (unsigned-still c b db).1) unsigned
      | inl good ↦
          let sign = signed-parts md5 secret b false good in
          rw (good, answered-logs true (prepare b true db))
            (signed sign.0 (prepare b true db).1 sign.1 sign.2 sign.3
              (prepare-Effect c b db true refl))
    ]
