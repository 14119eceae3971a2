-- ===== src/Billing/Webhooks/Composed.antt =====
-- The webhooks (billing/providers) as steps of the billing services, so that what holds of every
-- sequence of steps holds whatever the providers send.
use qayoda_backend.Base.{
  find?-All, ℕ, ◌≡◌, ◌≢◌, refl, Bool, true, false, none, some, Option, String, List, [], ◌∷◌,
  Bool-cases, inl, inr, arith, str_eq, find?, any, All,
}
use qayoda_backend.Billing.Types.{Payment, payme, click, paynet, body}
use qayoda_backend.Billing.Store.{Db}
use qayoda_backend.Billing.Fiscal.{FiscalConfig}
use qayoda_backend.Billing.Payments.{
  find_by_provider_txn, reverse, row_of, is_paid, record_push_payment,
}
use qayoda_backend.Billing.Wallet.{get_balance}
use qayoda_backend.Billing.Wallet.Ledger.{get_balance_lem}
use qayoda_backend.Billing.Payme.{PaymeParams, PaymeRpc, handle_rpc}
use qayoda_backend.Billing.Click.{ClickBody, handle_webhook}
use qayoda_backend.Billing.Paynet.{
  PaynetConfig, PaynetParams, PaynetRpc, Net, handle, fiscal_status,
}
use qayoda_backend.Billing.Settlement.Invariant.{IsSound, HasDistinctIds}
use qayoda_backend.Billing.Settlement.Outcomes.{reverse_lem}
use qayoda_backend.Billing.Lifecycle.Steps.{
  Reach, here, next, prepare, pay, abandon, take_back, push, look, audit,
}
use qayoda_backend.Billing.Webhooks.Runs.{
  find_by_provider_txn-IsSnapshot, find_by_prepare_id-IsSnapshot,
}
use qayoda_backend.Billing.Webhooks.PaymeEffects.{
  PaymeEffect, quiet as payme_quiet, prepares as payme_prepares, times_out, pays as payme_pays,
  withdraws, takes_back as payme_takes_back,
}
use qayoda_backend.Billing.Webhooks.PaymeHandled.{
  PaymeBody, empty_body as payme_empty, called as payme_called, PaymeHandled,
  turned_away as payme_away, let_in as payme_in, payme_handle_rpc-Handled,
}
use qayoda_backend.Billing.Webhooks.ClickRuns.{
  ClickEffect, quiet as click_quiet, prepares as click_prepares, fails, pays as click_pays,
  ClickHandled, unsigned, signed, click_handle_webhook-Handled,
}
use qayoda_backend.Billing.Webhooks.PaynetRuns.{
  PaynetEffect, quiet as paynet_quiet, looks, pushes, takes_back as paynet_takes_back,
}
use qayoda_backend.Billing.Webhooks.PaynetHandled.{
  empty_body as paynet_empty, called as paynet_called, PaynetHandled, turned_away as paynet_away,
  no_login, not_post, let_in as paynet_in, paynet_handle-Handled,
}

PaymeEffect-Reach :
    (c : FiscalConfig) (m : String) (p : PaymeParams) (db t : Db)
    → IsSound db
    → PaymeEffect c m p db t
    → Reach db t
PaymeEffect-Reach c m p db _ h payme_quiet = here
PaymeEffect-Reach c m p db _ h (payme_prepares x time _ _ _ _ _ _ _ _) =
    next here (prepare payme x _ _ db.now none)
PaymeEffect-Reach c m p db _ h (times_out x _ _ _ _ _) = next here (abandon payme x _ _ _ db.now)
PaymeEffect-Reach c m p db _ h (payme_pays x _ found _ _ _) =
    next here (pay payme x _ _ _ db.now none (find_by_provider_txn-IsSnapshot payme _ x db h found))
PaymeEffect-Reach c m p db _ h (withdraws x _ _ _) = next here (abandon payme x _ _ _ db.now)
PaymeEffect-Reach c m p db _ h (payme_takes_back x _ found done) =
    next here
      (take_back payme x _ _ db.now done (find_by_provider_txn-IsSnapshot payme _ x db h found))

-- In a sound state, whatever Payme sends, what the webhook does is a sequence of the services' steps.
pub payme_handle_rpc-Reach :
    (c : FiscalConfig) (base64 : List ℕ → List ℕ) (key header : Option String) (rpc : PaymeRpc)
    (db : Db)
    → IsSound db
    → Reach db (handle_rpc c base64 key header rpc db).1
payme_handle_rpc-Reach c base64 key header rpc db h =
    go _ (payme_handle_rpc-Handled c base64 key header rpc db)
  where
    body : (t : Db) → PaymeBody c rpc db t → Reach db t
    body _ payme_empty = here
    body t (payme_called m p _ _ _ e) = PaymeEffect-Reach c m p db t h e

    go : (r : _) → PaymeHandled c base64 key header rpc db r → Reach db r.1
    go _ payme_away = next here (audit payme false)
    go _ (payme_in _ _ _ _ t _ _ _ _ _ b) = next (body t b) (audit payme true)

ClickEffect-Reach :
    (c : FiscalConfig) (step : Bool) (b : ClickBody) (db t : Db)
    → IsSound db
    → ClickEffect c step b db t
    → Reach db t
ClickEffect-Reach c step b db _ h click_quiet = here
ClickEffect-Reach c step b db _ h (click_prepares x _ _) =
    next here (prepare click x _ _ db.now b.click_paydoc_id)
ClickEffect-Reach c step b db _ h (fails x e _ _ _ _) = next here (abandon click x _ _ _ db.now)
ClickEffect-Reach c step b db _ h (click_pays x _ a _ _) = next here (
    pay click x _ _ _ db.now b.click_paydoc_id
      (find_by_prepare_id-IsSnapshot click a.order x db h a.found))

-- The same of Click.
pub click_handle_webhook-Reach :
    (c : FiscalConfig) (md5 : String → String) (secret : Option String) (is_complete : Bool)
    (b : ClickBody) (db : Db)
    → IsSound db
    → Reach db (handle_webhook c md5 secret is_complete b db).1
click_handle_webhook-Reach c md5 secret is_complete b db h =
    go _ (click_handle_webhook-Handled c md5 secret is_complete b db)
  where
    go : (t : Db) → ClickHandled c md5 secret is_complete b db t → Reach db t
    go _ unsigned = next here (audit click false)
    go _ (signed _ t _ _ _ e) = next (ClickEffect-Reach c is_complete b db t h e) (audit click true)

-- Another row with the same id is not there.
others :
    (t : Payment → Bool) (xs : List Payment) (k : ℕ)
    → All (λ q. q.id ≢ k) xs
    → ((q : Payment) → t q ≡ true → q.id ≡ k)
    → any t xs ≡ false
others t [] k h w = refl
others t (x ∷ xs) k h w = elim (Bool-cases (t x)) [
  | inl hit ↦ absurd (h.0 (w x hit))
  | inr miss ↦ rw miss (others t xs k h.1 w)
]

-- A row that was read just now has the status that was read.
own_row :
    (test t : Payment → Bool) (xs : List Payment) (x : Payment)
    → HasDistinctIds xs
    → find? test xs ≡ some x
    → ((q : Payment) → t q ≡ true → q.id ≡ x.id)
    → t x ≡ false
    → any t xs ≡ false
own_row test t [] x h e w f = refl
own_row test t (y ∷ ys) x h e w f = elim (Bool-cases (test y)) [
  | inl hit ↦
      let same : y ≡ x = cc (rw hit at e) in rw (same, f) (others t ys x.id (rw (← same) h.0) w)
  | inr miss ↦
      let rest : find? test ys ≡ some x = rw miss at e in
      let apart : x.id ≢ y.id = find?-All (λ q. q.id ≢ y.id) test ys x h.0 rest in
      elim (Bool-cases (t y)) [
        | inl t_y ↦ absurd (apart (cc (w y t_y)))
        | inr not_y ↦ rw not_y (own_row test t ys x h.1 rest w f)
      ]
]

module _ (txn : String) (x : Payment) (db : Db) (h : IsSound db)
    (found : find_by_provider_txn paynet txn db ≡ some x) where
  -- The reversal of a payment that was read just now and is not paid changes nothing.
  reverse-still :
      is_paid x.status ≡ false
      → (reason : String) (error : Option String) (time : ℕ)
      → (reverse paynet x reason error time db).1 ≡ db
  unfolding find_by_provider_txn
  reverse-still open_still reason error time =
      let named : str_eq txn "" ≡ false = elim (Bool-cases (str_eq txn "")) [
        | inl blank ↦ absurd (cc (rw blank at found))
        | inr given ↦ given
      ] in
      let gone : any (row_of paynet x is_paid) db.payments ≡ false =
        own_row _ (row_of paynet x is_paid) db.payments x h.distinct (rw named at found)
          (λ q w. ground arith) (ground arith) in
      rw (reverse_lem paynet x db reason error time, gone) (ground arith)

  reverse-Reach :
      (reason : String) (error : Option String) (time : ℕ)
      → Reach db (reverse paynet x reason error time db).1
  reverse-Reach reason error time = elim (Bool-cases (is_paid x.status)) [
    | inl done ↦ next here (
        take_back paynet x reason error time (ground arith)
          (find_by_provider_txn-IsSnapshot paynet txn x db h found))
    | inr open_still ↦ rw (reverse-still open_still reason error time) here
  ]

PaynetEffect-Reach :
    (c : PaynetConfig) (m : String) (p : PaynetParams) (db t : Db)
    → IsSound db
    → PaynetEffect c m p db t
    → Reach db t
PaynetEffect-Reach c m p db _ h paynet_quiet = here
PaynetEffect-Reach c m p db _ h (looks u _ _ _) =
    let read : Reach db (get_balance u.id db).1 = next here (look u.id) in
    rw (get_balance_lem u.id db) at read
PaynetEffect-Reach c m p db _ h (pushes u amount txn true _ _ _ _ _ _ _ _) =
    let after : Db = (record_push_payment paynet u.id amount txn body (fiscal_status c) db).1 in
    let pushed : Reach db after = next here (push paynet u.id amount txn body (fiscal_status c)) in
    let read : Reach db (get_balance u.id after).1 = next pushed (look u.id) in
    rw (get_balance_lem u.id after) at read
PaynetEffect-Reach c m p db _ h (pushes u amount txn false _ _ _ _ _ _ _ _) =
    next here (push paynet u.id amount txn body (fiscal_status c))
PaynetEffect-Reach c m p db _ h (paynet_takes_back x txn _ _ _ found _) =
    reverse-Reach txn x db h found "paynet:cancel" none db.now

-- The same of Paynet.
pub paynet_handle-Reach :
    (c : PaynetConfig) (base64 : List ℕ → List ℕ) (nets : List Net) (http_method : String)
    (ip header : Option String) (rpc : PaynetRpc) (db : Db)
    → IsSound db
    → Reach db (handle c base64 nets http_method ip header rpc db).1
paynet_handle-Reach c base64 nets http_method ip header rpc db h =
    go _ _ (paynet_handle-Handled c base64 nets http_method ip header rpc db)
  where
    go :
        (status : ℕ) (t : Db)
        → PaynetHandled c base64 nets http_method ip header rpc db status t
        → Reach db t
    go _ _ (paynet_away valid) = next here (audit paynet valid)
    go _ _ no_login = next here (audit paynet false)
    go _ _ (not_post _ _) = next here (audit paynet true)
    go _ _ (paynet_in t _ _ _ paynet_empty) = next here (audit paynet true)
    go _ _ (paynet_in t _ _ _ (paynet_called p _ _ e)) =
        next (PaynetEffect-Reach c _ p db t h e) (audit paynet true)
