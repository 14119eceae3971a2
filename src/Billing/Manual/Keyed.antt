-- ===== src/Billing/Manual/Keyed.antt =====
-- An adjustment under a client's key happens once (`adjustWallet` of billing-admin.service.ts).
use qayoda_backend.Base.{
  ℕ, zero, suc, ◌≡◌, refl, true, false, none, some, is_some, ℤ, pos, negsuc, sub_ℕ, arith,
  Bool-cases, Option-cases, inl, inr,
}
use qayoda_backend.Billing.Types.{TxKind, WalletTransaction}
use qayoda_backend.Billing.Store.{Db, Result, ok, Result-cases}
use qayoda_backend.Billing.Wallet.{TxAudit, find_user, credit, debit}
use qayoda_backend.Billing.Wallet.Ledger.{row}
use qayoda_backend.Billing.Settlement.Effects.{credit-eq_ok, debit-eq_ok}
use qayoda_backend.Billing.Admin.{
  Adjusted, adjust_by, run_adjust, adjust_wallet, or_first, done_before,
}

-- An adjustment's row stands under its key with the balance that it gave, and no user is lost.
record Recorded (user client b : ℕ) (db db' : Db) : Type 0 where
  row : WalletTransaction
  under : done_before user (some client) db' ≡ some row
  says : row.balance_after ≡ b
  same_users : find_user user db' ≡ find_user user db

module _ (admin user client b : ℕ) (db db' : Db) where
  abbrev audit : TxAudit
  audit = record { client_id = some client; admin_id = some admin }

  credit-Recorded :
      (t : ℕ)
      → credit user (pos t) TxKind.admin_adjust none audit db ≡ (ok b, db')
      → Recorded user client b db db'
  credit-Recorded t h =
      rw (credit-eq_ok user t TxKind.admin_adjust none audit db db' b h).0 record {
        row = row user TxKind.admin_adjust none audit db (pos t) b;
        under = ground arith;
        says = refl;
        same_users = refl;
      }

  debit-Recorded :
      (t : ℕ)
      → debit user (pos t) TxKind.admin_adjust none audit db ≡ (ok b, db')
      → Recorded user client b db db'
  debit-Recorded t h = rw (debit-eq_ok user t TxKind.admin_adjust none audit db db' b h).0 record {
    row = row user TxKind.admin_adjust none audit db (sub_ℕ 0 t) b;
    under = ground arith;
    says = refl;
    same_users = refl;
  }

  adjust_by-Recorded :
      (amount : ℤ) → adjust_by user amount audit db ≡ (ok b, db') → Recorded user client b db db'
  unfolding adjust_by
  adjust_by-Recorded (pos zero) h = debit-Recorded 0 h
  adjust_by-Recorded (pos (suc n)) h = credit-Recorded (suc n) h
  adjust_by-Recorded (negsuc n) h = debit-Recorded (suc n) h

  run_adjust-Recorded :
      (amount : ℤ)
      → run_adjust admin user amount (some client) db
        ≡ (ok record { balance = b; repeated = false }, db')
      → Recorded user client b db db' × (is_some (find_user user db) ≡ true)
  unfolding run_adjust
  run_adjust-Recorded amount h = elim (Bool-cases (is_some (find_user user db))) [
    | inr stranger ↦ absurd (cc (rw (stranger, run_adjust) at h))
    | inl known ↦ elim (Option-cases (done_before user (some client) db)) [
      | inr (t, done) ↦ absurd (cc (rw (known, done, run_adjust) at h))
      | inl new ↦ elim (Result-cases (adjust_by user amount audit db)) [
        | inr (x, t, refused) ↦ absurd (cc (rw (known, new, refused, run_adjust) at h))
        | inl (c, t, moved) ↦
            let e = rw (known, new, moved, run_adjust) at h in
            let same_state : t ≡ db' = cc in
            let same_balance : c ≡ b = cc in
            (adjust_by-Recorded amount (rw (← same_state, ← same_balance) moved), known)
      ]
    ]
  ]

first_answer :
    (user client b : ℕ) (r : Result Adjusted × Db) (db' : Db)
    → or_first user (some client) r ≡ (ok record { balance = b; repeated = false }, db')
    → r ≡ (ok record { balance = b; repeated = false }, db')
first_answer user client b r db' h = ground arith

run_adjust-again :
    (admin user client b : ℕ) (amount : ℤ) (db db' : Db)
    → Recorded user client b db db'
    → is_some (find_user user db) ≡ true
    → run_adjust admin user amount (some client) db'
      ≡ (ok record { balance = b; repeated = true }, db')
unfolding run_adjust
run_adjust-again admin user client b amount db db' r known =
    let still : is_some (find_user user db') ≡ true = rw r.same_users known in
    rw (run_adjust, still, r.under, r.says) refl

-- Once an adjustment under a client's key has moved the balance, a second one of the same user
-- under that key, of any amount and by any admin, moves nothing and is answered with the balance
-- that the first one gave.
pub adjust_wallet-once :
    (admin second user client b : ℕ) (amount again : ℤ) (db db' : Db)
    → adjust_wallet admin user amount (some client) db
      ≡ (ok record { balance = b; repeated = false }, db')
    → adjust_wallet second user again (some client) db'
      ≡ (ok record { balance = b; repeated = true }, db')
unfolding adjust_wallet
adjust_wallet-once admin second user client b amount again db db' h =
    let r =
      run_adjust-Recorded admin user client b db db' amount
        (first_answer user client b (run_adjust admin user amount (some client) db) db' h) in
    rw (run_adjust-again second user client b again db db' r.0 r.1) refl
