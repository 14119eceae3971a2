-- ===== src/Billing/Wallet.antt =====
-- WalletService (billing/wallet.service.ts): balances and the ledger.
pub mod Ledger
pub mod Balanced
use qayoda_backend.Base.{
  ℕ, ◌+◌, ◌-◌, ◌*◌, ◌/◌, Bool, true, false, not, ◌&&◌, ◌||◌, Option, none, some, List, [], ◌∷◌, ltb,
  leb, ◌==◌, if◌then◌else◌, is_some, is_id, or_default, find?, any, select, sort_by, take, drop,
  length, ℤ, pos, negsuc, sub_ℕ,
}
use qayoda_backend.Billing.Types.{
  TariffAction, listing_post, TxKind, topup, topup_bonus, refund as refund_kind, kind_of, kind_eq,
  action_eq, is_first_free_action, max_balance, max_safe_integer, WalletTransaction, FreeGrant,
  Tariff, BonusTier, Payment, User, UserRole,
}
use qayoda_backend.Billing.Store.{
  Db, Action, ok, ◌>>=◌, ◌>>◌, pure, raise, gets, or_raise, raise_if, modify, update, fresh_id,
  invalid_amount, insufficient_funds, balance_limit, tariff_unavailable, tariff_not_found,
  tariff_required, transaction_not_found, unique_violation, no_row,
}

-- A row of `users` that is not soft-deleted, by its key.
abbrev pub find_user : ℕ → Db → Option User
find_user k db = find? (λ u. u.id == k && not (is_some u.deleted_at)) db.users

-- A safe integer above 0, or the request is refused.
unfoldable pub assert_positive : ℤ → Action ℕ
assert_positive (pos n) = raise_if (n == 0 || ltb max_safe_integer n) invalid_amount >> pure n
assert_positive (negsuc n) = raise invalid_amount

-- `INSERT INTO wallets … ON CONFLICT DO NOTHING`; a new wallet holds 0.
unfoldable pub ensure_wallet : ℕ → Action (Unit {0})
ensure_wallet u =
    modify
      λ db. if is_some (db.wallets u) then db else record db { wallets = update db.wallets u 0 }

unfoldable pub get_balance : ℕ → Action ℕ
unfolding ensure_wallet
get_balance u = do ensure_wallet u; or_raise (← gets (λ db. db.wallets u)) no_row

-- The unique index on (reference_id, kind) of top-ups and their bonuses.
abbrev pub topup_twice : WalletTransaction → WalletTransaction → Bool
topup_twice t r =
    (kind_eq t.kind topup || kind_eq t.kind topup_bonus)
    && kind_eq t.kind r.kind
    && elim t.reference_id [ none ↦ false | some k ↦ is_id k r.reference_id ]

-- The unique index on (user_id, client_id).
abbrev pub client_twice : WalletTransaction → WalletTransaction → Bool
client_twice t r =
    t.user_id == r.user_id && elim t.client_id [ none ↦ false | some k ↦ is_id k r.client_id ]

-- `manager.insert(WalletTransaction, …)` under the two unique indices.
unfoldable pub insert_transaction : WalletTransaction → Action (Unit {0})
insert_transaction t = do
  rows ← gets (λ db. db.transactions)
  raise_if (any (λ r. topup_twice t r || client_twice t r) rows) unique_violation
  modify λ db. record db { transactions = t ∷ db.transactions }

-- `TxAudit`
pub record TxAudit : Type 0 where
  pub client_id : Option ℕ
  pub admin_id : Option ℕ

abbrev pub no_audit : TxAudit
no_audit = record { client_id = none; admin_id = none }

-- One row of the ledger, as `debit` and `credit` write it.
unfoldable pub write_row : ℕ → ℤ → TxKind → Option ℕ → ℕ → TxAudit → Action (Unit {0})
write_row u amount kind ref balance audit = do
  id ← fresh_id
  at ← gets (λ db. db.now)
  insert_transaction record {
    id = id;
    user_id = u;
    amount = amount;
    kind = kind;
    reference_id = ref;
    balance_after = balance;
    client_id = audit.client_id;
    admin_id = audit.admin_id;
    created_at = at;
  }

-- `UPDATE wallets SET balance = balance - t WHERE user_id = u AND balance >= t RETURNING balance`
unfoldable pub take_from : ℕ → ℕ → Action (Option ℕ)
take_from u t db = elim (db.wallets u) [
  | none ↦ (ok none, db)
  | some b ↦
      if leb t b
      then (ok (some (b - t)), record db { wallets = update db.wallets u (b - t) })
      else (ok none, db)
]

-- `UPDATE wallets SET balance = balance + t WHERE user_id = u RETURNING balance`
unfoldable pub add_to : ℕ → ℕ → Action (Option ℕ)
add_to u t db = elim (db.wallets u) [
  | none ↦ (ok none, db)
  | some b ↦ (ok (some (b + t)), record db { wallets = update db.wallets u (b + t) })
]

-- The rows that the debit's UPDATE returned: none is a refusal, which first reads the balance.
unfoldable pub debited : ℕ → Option ℕ → Action ℕ
debited u none = get_balance u >> raise insufficient_funds
debited u (some b) = pure b

unfoldable pub debit : ℕ → ℤ → TxKind → Option ℕ → TxAudit → Action ℕ
debit u amount kind ref audit = do
  t ← assert_positive amount
  ensure_wallet u
  b ← debited u (← take_from u t)
  write_row u (sub_ℕ 0 t) kind ref b audit
  pure b

unfoldable pub credit : ℕ → ℤ → TxKind → Option ℕ → TxAudit → Action ℕ
credit u amount kind ref audit = do
  t ← assert_positive amount
  ensure_wallet u
  current ← get_balance u
  raise_if (ltb max_balance (current + t)) balance_limit
  b ← or_raise (← add_to u t) no_row
  write_row u (pos t) kind ref b audit
  pure b

unfoldable pub refund : ℕ → ℤ → Option ℕ → Action ℕ
refund u amount ref = credit u amount refund_kind ref no_audit

unfoldable pub account_no : ℕ → Action ℕ
account_no u = do user ← or_raise (← gets (find_user u)) no_row; pure user.account_no

pub record TransactionPage : Type 0 where
  pub items : List WalletTransaction
  pub total : ℕ

unfoldable pub list_transactions : ℕ → ℕ → ℕ → Db → TransactionPage
list_transactions u limit offset db =
    let mine = select (λ t. t.user_id == u) db.transactions in
    record {
      items = take limit (drop offset (sort_by (λ s t. leb t.created_at s.created_at) mine));
      total = length mine;
    }

pub record TransactionView : Type 0 where
  pub transaction : WalletTransaction
  pub listing_id : Option ℕ
  pub payment : Option Payment

abbrev pub from_payment : TxKind → Bool
from_payment k = kind_eq k topup || kind_eq k topup_bonus || kind_eq k refund_kind

unfoldable pub get_transaction : ℕ → ℕ → Action TransactionView
get_transaction u id = do
  tx ←
      or_raise (← gets (λ db. find? (λ t. t.id == id && t.user_id == u) db.transactions))
        transaction_not_found
  payments ← gets (λ db. db.payments)
  pure record {
    transaction = tx;
    listing_id = if kind_eq tx.kind TxKind.listing_promote then tx.reference_id else none;
    payment =
        if from_payment tx.kind
        then find? (λ p. is_id p.id tx.reference_id && p.user_id == u) payments
        else none;
  }
