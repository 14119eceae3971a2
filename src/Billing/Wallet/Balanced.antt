-- ===== src/Billing/Wallet/Balanced.antt =====
-- The ledger of wallet_transactions accounts for every balance.
use qayoda_backend.Base.{
  ℕ, ◌+◌, ◌≤◌, ◌≡◌, List, [], ◌∷◌, if◌then◌else◌, ◌==◌, ℤ, pos, negsuc, pos_part, neg_part, arith,
  Option,
}
use qayoda_backend.Billing.Types.{TxKind, WalletTransaction, max_balance}
use qayoda_backend.Billing.Store.{Db, transaction}
use qayoda_backend.Billing.Wallet.{TxAudit, credit, debit}
use qayoda_backend.Billing.Wallet.Ledger.{
  balance_of, credit_lem, debit_lem, credit-negsuc, debit-negsuc,
}

abbrev pub credits : ℕ → List WalletTransaction → ℕ
credits u [] = 0
credits u (t ∷ ts) = (if t.user_id == u then pos_part t.amount else 0) + credits u ts

abbrev pub debits : ℕ → List WalletTransaction → ℕ
debits u [] = 0
debits u (t ∷ ts) = (if t.user_id == u then neg_part t.amount else 0) + debits u ts

-- Every user's balance is what the ledger credits less what it debits, and fits its column.
pub record IsBalanced (db : Db) : Type 0 where
  pub accounted : (u : ℕ) → balance_of u db + debits u db.transactions ≡ credits u db.transactions
  pub bounded : (u : ℕ) → balance_of u db ≤ max_balance

module _ (u : ℕ) (kind : TxKind) (ref : Option ℕ) (audit : TxAudit) (db : Db) where
  -- In a transaction a credit of any amount, granted or refused, keeps the ledger balanced.
  pub credit-IsBalanced :
      (amount : ℤ) → IsBalanced db → IsBalanced (transaction (credit u amount kind ref audit) db).1
  credit-IsBalanced (pos t) h = record {
    accounted = λ v. ground (arith, h.accounted v, credit_lem u kind ref audit db t);
    bounded = λ v. ground (arith, h.bounded v, h.bounded u, credit_lem u kind ref audit db t);
  }
  credit-IsBalanced (negsuc n) h = record {
    accounted = λ v. ground (arith, h.accounted v, credit-negsuc u kind ref audit db n);
    bounded = λ v. ground (arith, h.bounded v, credit-negsuc u kind ref audit db n);
  }

  -- In a transaction a debit of any amount, granted or refused, keeps the ledger balanced.
  pub debit-IsBalanced :
      (amount : ℤ) → IsBalanced db → IsBalanced (transaction (debit u amount kind ref audit) db).1
  debit-IsBalanced (pos t) h = record {
    accounted = λ v. ground (arith, h.accounted v, debit_lem u kind ref audit db t);
    bounded = λ v. ground (arith, h.bounded v, h.bounded u, debit_lem u kind ref audit db t);
  }
  debit-IsBalanced (negsuc n) h = record {
    accounted = λ v. ground (arith, h.accounted v, debit-negsuc u kind ref audit db n);
    bounded = λ v. ground (arith, h.bounded v, debit-negsuc u kind ref audit db n);
  }
