-- ===== src/Billing/Settlement/Invariant.antt =====
-- What the ledger says of every payment (wallet_transactions and payments of the billing module).
use qayoda_backend.Base.{
  ℕ, ◌+◌, ◌≤◌, ◌<◌, ◌≡◌, ◌≢◌, Bool, true, false, ◌&&◌, List, [], ◌∷◌, if◌then◌else◌, is_id, is_some,
  All, pos_part, neg_part,
}
use qayoda_backend.Billing.Types.{
  WalletTransaction, Payment, paid, cancelled, status_eq, topup, topup_bonus, refund, kind_eq,
}
use qayoda_backend.Billing.Store.{Db}
use qayoda_backend.Billing.Payments.{is_open}
use qayoda_backend.Billing.Wallet.Balanced.{IsBalanced}

-- What the rows credited for a payment as its top-up.
abbrev pub topups : ℕ → List WalletTransaction → ℕ
topups id [] = 0
topups id (t ∷ ts) =
    (if kind_eq t.kind topup && is_id id t.reference_id then pos_part t.amount else 0)
    + topups id ts

-- What they credited as its bonus.
abbrev pub bonuses : ℕ → List WalletTransaction → ℕ
bonuses id [] = 0
bonuses id (t ∷ ts) =
    (if kind_eq t.kind topup_bonus && is_id id t.reference_id then pos_part t.amount else 0)
    + bonuses id ts

-- What they took back for its reversal.
abbrev pub reversals : ℕ → List WalletTransaction → ℕ
reversals id [] = 0
reversals id (t ∷ ts) =
    (if kind_eq t.kind refund && is_id id t.reference_id then neg_part t.amount else 0)
    + reversals id ts

-- The payment was performed, now or before it was cancelled.
abbrev pub is_performed : Payment → Bool
is_performed p = is_some p.provider_perform_time

-- The ledger holds for a payment: its amount and bonus once if it was performed, and their
-- reversal once if it was cancelled after that.
pub record IsSettled (ts : List WalletTransaction) (p : Payment) : Type 0 where
  pub topped : topups p.id ts ≡ (if is_performed p then p.amount else 0)
  pub bonused : bonuses p.id ts ≡ (if is_performed p then p.bonus_amount else 0)
  pub taken_back :
      reversals p.id ts
      ≡ (if is_performed p && status_eq p.status cancelled then p.amount + p.bonus_amount else 0)
  pub open_unperformed : is_open p.status ≡ true → is_performed p ≡ false
  pub paid_performed : p.status ≡ paid → is_performed p ≡ true

-- The primary key.
abbrev pub HasDistinctIds : List Payment → Type 0
HasDistinctIds [] = Unit
HasDistinctIds (p ∷ ps) = All (λ q. q.id ≢ p.id) ps × HasDistinctIds ps

pub record IsSound (db : Db) : Type 0 where
  pub balanced : IsBalanced db
  pub below : All (λ p. p.id < db.next_id) db.payments
  pub distinct : HasDistinctIds db.payments
  pub settled : All (IsSettled db.transactions) db.payments
  pub fresh :
      (id : ℕ)
      → db.next_id ≤ id
      → (topups id db.transactions ≡ 0)
        × (bonuses id db.transactions ≡ 0)
        × (reversals id db.transactions ≡ 0)
