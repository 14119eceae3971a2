-- ===== src/Billing/Topup.antt =====
-- TopupService (billing/topup.service.ts): the orders of a pull-model provider.
use qayoda_backend.Base.{
  ℕ, Bool, false, not, ◌&&◌, ◌||◌, Option, none, some, ◌∷◌, ◌+◌, ◌==◌, if◌then◌else◌, is_id, find?,
  any,
}
use qayoda_backend.Billing.Types.{
  PaymentProviderKind, provider_eq, PaymentStatus, created, FiscalStatus, Payment,
}
use qayoda_backend.Billing.Store.{
  Db, Action, ◌>>=◌, ◌>>◌, pure, gets, or_raise, raise_if, provider_unavailable, client_id_reused,
  payment_not_found, no_row,
}
use qayoda_backend.Billing.Pricing.{Bonus, bonus_for}

-- The row that an order inserts, with the columns' defaults.
abbrev pub order_row : ℕ → ℕ → ℕ → PaymentProviderKind → ℕ → ℕ → Option ℕ → Payment
order_row now id prepare_id provider user amount client = record {
  id = id;
  user_id = user;
  client_id = client;
  provider = provider;
  amount = amount;
  bonus_amount = 0;
  status = created;
  prepare_id = prepare_id;
  provider_txn_id = none;
  provider_doc_id = none;
  provider_payload = none;
  provider_error = none;
  provider_create_time = none;
  provider_perform_time = none;
  provider_cancel_time = none;
  fiscal_status = FiscalStatus.none;
  fiscal_attempts = 0;
  fiscal_sent_at = none;
  paid_at = none;
  cancelled_at = none;
  cancel_reason = none;
  created_at = now;
  updated_at = now;
}

-- `INSERT INTO payments`, which does nothing if `skip`: the sequences move on all the same.
unfoldable pub insert_order : Bool → PaymentProviderKind → ℕ → ℕ → Option ℕ → Db → Payment × Db
insert_order skip provider user amount client db =
    let p = order_row db.now db.next_id db.next_prepare provider user amount client in
    (
      p,
      record db {
        next_id = db.next_id + 1;
        next_prepare = db.next_prepare + 1;
        payments = if skip then db.payments else p ∷ db.payments;
      },
    )

-- The user's order with this client id.
abbrev pub of_client : ℕ → ℕ → Payment → Bool
of_client user client q = q.user_id == user && is_id client q.client_id

unfoldable pub create_order : ℕ → PaymentProviderKind → ℕ → Option ℕ → Action Payment
create_order user kind amount none db =
    let (p, db') = insert_order false kind user amount none db in pure p db'
create_order user kind amount (some client) db =
    let (_, db') =
      insert_order (any (of_client user client) db.payments) kind user amount (some client) db in
    (do
      p ← or_raise (find? (of_client user client) db'.payments) no_row
      raise_if (not (p.amount == amount) || not (provider_eq p.provider kind)) client_id_reused
      pure p)
      db'

pub record TopupReply : Type 0 where
  pub payment_id : ℕ
  pub status : PaymentStatus
  pub provider : PaymentProviderKind
  pub bonus_preview : Bonus

-- `createTopup`, less the checkout link; `available` is the map of the configured providers.
unfoldable pub create_topup :
    (PaymentProviderKind → Bool) → ℕ → ℕ → PaymentProviderKind → Option ℕ → Action TopupReply
create_topup available user amount kind client = do
  raise_if (not (available kind)) provider_unavailable
  p ← create_order user kind amount client
  bonus ← gets (bonus_for amount)
  pure record { payment_id = p.id; status = p.status; provider = kind; bonus_preview = bonus }

pub record TopupView : Type 0 where
  pub id : ℕ
  pub provider : PaymentProviderKind
  pub status : PaymentStatus
  pub amount : ℕ
  pub bonus_amount : ℕ
  pub paid_at : Option ℕ

unfoldable pub get_topup : ℕ → ℕ → Action TopupView
get_topup user id = do
  p ←
      or_raise (← gets (λ db. find? (λ q. q.id == id && q.user_id == user) db.payments))
        payment_not_found
  pure record {
    id = p.id;
    provider = p.provider;
    status = p.status;
    amount = p.amount;
    bonus_amount = p.bonus_amount;
    paid_at = p.paid_at;
  }
