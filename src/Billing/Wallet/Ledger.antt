-- ===== src/Billing/Wallet/Ledger.antt =====
-- What `debit` and `credit` (billing/wallet.service.ts) leave behind, case by case.
use qayoda_backend.Base.{
  ℕ, ◌+◌, ◌-◌, ◌≡◌, leb, none, some, Bool, Option, ◌∷◌, if◌then◌else◌, or_default, ◌==◌, ◌||◌, ltb,
  is_some, ℤ, pos, negsuc, sub_ℕ, arith, any, not, Bool-cases, inl, inr,
}
use qayoda_backend.Billing.Types.{TxKind, WalletTransaction, max_balance, max_safe_integer}
use qayoda_backend.Billing.Store.{
  Db, ok, err, update, invalid_amount, insufficient_funds, balance_limit, unique_violation,
}
use qayoda_backend.Billing.Wallet.{
  TxAudit, credit, debit, get_balance, ensure_wallet, add_to, take_from, write_row,
  insert_transaction, assert_positive, debited, topup_twice, client_twice,
}

-- The balance of a user: 0 before there is a wallet.
abbrev pub balance_of : ℕ → Db → ℕ
balance_of u db = or_default (db.wallets u) 0

-- The state once the user's wallet exists.
abbrev pub opened : ℕ → Db → Db
opened u db = record db {
  wallets = if is_some (db.wallets u) then db.wallets else update db.wallets u 0;
}

pub get_balance_lem : (u : ℕ) (db : Db) → get_balance u db ≡ (ok (balance_of u db), opened u db)
unfolding get_balance
get_balance_lem u db = ground arith

ensure_wallet_lem : (u : ℕ) (db : Db) → ensure_wallet u db ≡ (ok tt, opened u db)
unfolding ensure_wallet
ensure_wallet_lem u db = elim (Bool-cases (is_some (db.wallets u))) [
  | inl has ↦ rw has
  | inr lacks ↦ rw lacks
]

opened_balance : (u : ℕ) (db : Db) → balance_of u (opened u db) ≡ balance_of u db
opened_balance u db = ground arith

opened_wallet : (u : ℕ) (db : Db) → (opened u db).wallets u ≡ some (balance_of u db)
opened_wallet u db = ground arith

opened_again : (u : ℕ) (db : Db) → opened u (opened u db) ≡ opened u db
opened_again u db = rw (opened_wallet u db)

get_balance-opened :
    (u : ℕ) (db : Db) → get_balance u (opened u db) ≡ (ok (balance_of u db), opened u db)
get_balance-opened u db = rw (get_balance_lem, opened_balance u db, opened_again u db)

add_to-opened :
    (u t : ℕ) (db : Db)
    → add_to u t (opened u db) ≡ (
      ok (some (balance_of u db + t)),
      record (opened u db) { wallets = update (opened u db).wallets u (balance_of u db + t) },
    )
unfolding add_to
add_to-opened u t db = rw (add_to, opened_wallet u db)

take_from-opened :
    (u t : ℕ) (db : Db)
    → take_from u t (opened u db) ≡ (
        if leb t (balance_of u db)
        then (
          ok (some (balance_of u db - t)),
          record (opened u db) { wallets = update (opened u db).wallets u (balance_of u db - t) },
        )
        else (ok none, opened u db))
unfolding take_from
take_from-opened u t db = rw (take_from, opened_wallet u db)

module _ (u : ℕ) (kind : TxKind) (ref : Option ℕ) (audit : TxAudit) (db : Db) where
  -- The row that a movement of `a` to the balance `b` writes.
  abbrev pub row : ℤ → ℕ → WalletTransaction
  row a b = record {
    id = db.next_id;
    user_id = u;
    amount = a;
    kind = kind;
    reference_id = ref;
    balance_after = b;
    client_id = audit.client_id;
    admin_id = audit.admin_id;
    created_at = db.now;
  }

  -- A unique index of the ledger refuses the row.
  abbrev pub clashes : ℤ → ℕ → Bool
  clashes a b = any (λ r. topup_twice (row a b) r || client_twice (row a b) r) db.transactions

  -- `write_row` at a state in which the wallet has been changed.
  write_row_lem :
      (a : ℤ) (b : ℕ) (w : ℕ → Option ℕ)
      → write_row u a kind ref b audit (record db { wallets = w }) ≡ (
          if clashes a b
          then (err unique_violation, record db { next_id = db.next_id + 1; wallets = w })
          else (
            ok tt,
            record db {
              next_id = db.next_id + 1;
              wallets = w;
              transactions = row a b ∷ db.transactions;
            },
          ))
  unfolding write_row insert_transaction
  write_row_lem a b w = elim (Bool-cases (clashes a b)) [
    | inl clash ↦ rw clash
    | inr free ↦ rw free
  ]

  -- The balance is `b`, and no row is written yet.
  abbrev pub moved : ℕ → Db
  moved b = record (opened u db) {
    next_id = db.next_id + 1;
    wallets = update (opened u db).wallets u b;
  }

  -- The balance is `b`, and the row says so.
  abbrev pub posted : ℤ → ℕ → Db
  posted a b = record (moved b) { transactions = row a b ∷ db.transactions }

  -- `credit` of a number of tiyin on every branch: zero or an unsafe integer raises and writes
  -- nothing; a balance over the limit raises; a row that a unique index refuses raises; otherwise
  -- the balance grows by the amount and one row of the ledger says so.
  pub credit_lem :
      (t : ℕ)
      → credit u (pos t) kind ref audit db ≡ (
          if t == 0 || ltb max_safe_integer t
          then (err invalid_amount, db)
          else if ltb max_balance (balance_of u db + t)
          then (err balance_limit, opened u db)
          else if clashes (pos t) (balance_of u db + t)
          then (err unique_violation, moved (balance_of u db + t))
          else (ok (balance_of u db + t), posted (pos t) (balance_of u db + t)))
  unfolding credit assert_positive
  credit_lem t = elim (Bool-cases (t == 0 || ltb max_safe_integer t)) [
    | inl bad ↦ rw bad
    | inr good ↦ elim (Bool-cases (ltb max_balance (balance_of u db + t))) [
      | inl over ↦ rw (good, ensure_wallet_lem, get_balance-opened, over)
      | inr under ↦ elim (Bool-cases (clashes (pos t) (balance_of u db + t))) [
        | inl clash ↦ rw (
          good, ensure_wallet_lem, get_balance-opened, under, add_to-opened, write_row_lem, clash,
        )
        | inr free ↦
            rw (
              good, ensure_wallet_lem, get_balance-opened, under, add_to-opened, write_row_lem,
              free,
            )
      ]
    ]
  ]

  -- `debit` of a number of tiyin on every branch: zero or an unsafe integer raises and writes
  -- nothing; a balance that does not cover it raises; a row that a unique index refuses raises;
  -- otherwise the balance falls by the amount and one row of the ledger says so.
  pub debit_lem :
      (t : ℕ)
      → debit u (pos t) kind ref audit db ≡ (
          if t == 0 || ltb max_safe_integer t
          then (err invalid_amount, db)
          else if not (leb t (balance_of u db))
          then (err insufficient_funds, opened u db)
          else if clashes (sub_ℕ 0 t) (balance_of u db - t)
          then (err unique_violation, moved (balance_of u db - t))
          else (ok (balance_of u db - t), posted (sub_ℕ 0 t) (balance_of u db - t)))
  unfolding debit assert_positive debited
  debit_lem t = elim (Bool-cases (t == 0 || ltb max_safe_integer t)) [
    | inl bad ↦ rw bad
    | inr good ↦ elim (Bool-cases (leb t (balance_of u db))) [
      | inr short ↦
          rw (good, ensure_wallet_lem, take_from-opened, short, debited, get_balance-opened)
      | inl covered ↦ elim (Bool-cases (clashes (sub_ℕ 0 t) (balance_of u db - t))) [
        | inl clash ↦ rw (good, ensure_wallet_lem, take_from-opened, covered, write_row_lem, clash)
        | inr free ↦ rw (good, ensure_wallet_lem, take_from-opened, covered, write_row_lem, free)
      ]
    ]
  ]

  -- A negative amount is never a movement.
  pub credit-negsuc : (n : ℕ) → credit u (negsuc n) kind ref audit db ≡ (err invalid_amount, db)
  unfolding credit assert_positive
  credit-negsuc n = ground arith

  pub debit-negsuc : (n : ℕ) → debit u (negsuc n) kind ref audit db ≡ (err invalid_amount, db)
  unfolding debit assert_positive debited
  debit-negsuc n = ground arith
