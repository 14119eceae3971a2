-- ===== src/Billing/Settlement/Adjusted.antt =====
-- Adjustments and resets by an admin (billing/billing-admin.service.ts) keep the ledger sound.
use qayoda_backend.Base.{
  ℕ, zero, suc, ◌≡◌, not, Option, none, some, pos, negsuc, ℤ, arith, Bool-cases, Option-cases, inl,
  inr, any, select, is_some,
}
use qayoda_backend.Billing.Types.{TxKind, TariffAction, is_first_free_action}
use qayoda_backend.Billing.Store.{Db, Result, ok, Result-cases}
use qayoda_backend.Billing.Wallet.{debit, credit, TxAudit, find_user}
use qayoda_backend.Billing.Admin.{
  Adjusted, adjust_by, run_adjust, adjust_wallet, or_first, done_before, reset_free_grant, grant_of,
}
use qayoda_backend.Billing.Settlement.Effects.{
  Moves, credit-eq_ok, debit-eq_ok, credit-ok-IsBalanced, debit-ok-IsBalanced,
}
use qayoda_backend.Billing.Settlement.Charged.{Idle, still, moved, granted}

module _ (u : ℕ) (audit : TxAudit) (db db' : Db) (b : ℕ) where
  credited :
      (t : ℕ)
      → credit u (pos t) TxKind.admin_adjust none audit db ≡ (ok b, db')
      → Moves 0 0 0 0 db db'
  credited t h = record {
    same_payments = ground (arith, credit-eq_ok u t TxKind.admin_adjust none audit db db' b h);
    same_outbox = ground (arith, credit-eq_ok u t TxKind.admin_adjust none audit db db' b h);
    grows = ground (arith, credit-eq_ok u t TxKind.admin_adjust none audit db db' b h);
    tops = λ j. ground (arith, credit-eq_ok u t TxKind.admin_adjust none audit db db' b h);
    bons = λ j. ground (arith, credit-eq_ok u t TxKind.admin_adjust none audit db db' b h);
    revs = λ j. ground (arith, credit-eq_ok u t TxKind.admin_adjust none audit db db' b h);
    keeps_balance = credit-ok-IsBalanced u t TxKind.admin_adjust none audit db db' b h;
  }

  debited :
      (t : ℕ)
      → debit u (pos t) TxKind.admin_adjust none audit db ≡ (ok b, db')
      → Moves 0 0 0 0 db db'
  debited t h = record {
    same_payments = ground (arith, debit-eq_ok u t TxKind.admin_adjust none audit db db' b h);
    same_outbox = ground (arith, debit-eq_ok u t TxKind.admin_adjust none audit db db' b h);
    grows = ground (arith, debit-eq_ok u t TxKind.admin_adjust none audit db db' b h);
    tops = λ j. ground (arith, debit-eq_ok u t TxKind.admin_adjust none audit db db' b h);
    bons = λ j. ground (arith, debit-eq_ok u t TxKind.admin_adjust none audit db db' b h);
    revs = λ j. ground (arith, debit-eq_ok u t TxKind.admin_adjust none audit db db' b h);
    keeps_balance = debit-ok-IsBalanced u t TxKind.admin_adjust none audit db db' b h;
  }

  adjusted-Moves : (amount : ℤ) → adjust_by u amount audit db ≡ (ok b, db') → Moves 0 0 0 0 db db'
  unfolding adjust_by
  adjusted-Moves (pos zero) h = debited 0 h
  adjusted-Moves (pos (suc n)) h = credited (suc n) h
  adjusted-Moves (negsuc n) h = debited (suc n) h

or_first-still :
    (user : ℕ) (client : Option ℕ) (r : Result Adjusted × Db) → (or_first user client r).1 ≡ r.1
or_first-still user client r = ground arith

-- An adjustment, whatever its outcome.
pub adjust_wallet-Idle :
    (admin user : ℕ) (amount : ℤ) (client : Option ℕ) (db : Db)
    → Idle db (adjust_wallet admin user amount client db).1
unfolding adjust_wallet run_adjust
adjust_wallet-Idle admin user amount client db =
    let audit : TxAudit = record { client_id = client; admin_id = some admin } in
    rw or_first-still (elim (Bool-cases (is_some (find_user user db))) [
      | inr stranger ↦ rw stranger (still db)
      | inl known ↦ elim (Option-cases (done_before user client db)) [
        | inr (t, done) ↦ rw (known, done) (still db)
        | inl new ↦ elim (Result-cases (adjust_by user amount audit db)) [
          | inl (b, t, done) ↦
              rw (known, new, done) (moved db t (adjusted-Moves user audit db t b amount done))
          | inr (x, t, refused) ↦ rw (known, new, refused) (still db)
        ]
      ]
    ])

-- A reset of a free action, whatever its outcome.
pub reset_free_grant-Idle :
    (user : ℕ) (action : TariffAction) (db : Db) → Idle db (reset_free_grant user action db).1
unfolding reset_free_grant
reset_free_grant-Idle user action db = elim (Bool-cases (is_first_free_action action)) [
  | inr never ↦ rw never (still db)
  | inl first ↦ elim (Bool-cases (any (grant_of user action) db.free_grants)) [
    | inr unused ↦ rw (first, unused) (still db)
    | inl used ↦
        rw (first, used)
          (granted user none db (select (λ g. not (grant_of user action g)) db.free_grants))
  ]
]
