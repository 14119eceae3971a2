-- ===== src/Billing/Settlement/Effects.antt =====
-- What the credits and the debit of a payment (wallet.service.ts) change, and what they leave.
use mathlib.Core.Path.{subst}
use qayoda_backend.Base.{
  ==_iff, ℕ, ◌+◌, ◌≤◌, ◌≡◌, ◌≢◌, Option, some, if◌then◌else◌, ◌==◌, pos, sub_ℕ, arith, Bool-cases,
  inl, inr, ◌∙◌,
}
use qayoda_backend.Billing.Types.{topup, topup_bonus, refund, TxKind}
use qayoda_backend.Billing.Store.{Db, Result, ok, Result-cases, commit}
use qayoda_backend.Billing.Wallet.{credit, debit, no_audit, TxAudit}
use qayoda_backend.Billing.Wallet.Ledger.{balance_of, posted, credit_lem, debit_lem}
use qayoda_backend.Billing.Wallet.Balanced.{IsBalanced, credit-IsBalanced, debit-IsBalanced}
use qayoda_backend.Billing.Payments.{credit_topup, as_reversal}
use qayoda_backend.Billing.Settlement.Invariant.{topups, bonuses, reversals}

module _ (u t : ℕ) (kind : TxKind) (ref : Option ℕ) (audit : TxAudit) (db db' : Db) (b : ℕ) where
  pub credit-eq_ok :
      credit u (pos t) kind ref audit db ≡ (ok b, db')
      → (db' ≡ posted u kind ref audit db (pos t) b) × (b ≡ balance_of u db + t)
  credit-eq_ok h = ground (arith, credit_lem u kind ref audit db t)

  pub debit-eq_ok :
      debit u (pos t) kind ref audit db ≡ (ok b, db')
      → (db' ≡ posted u kind ref audit db (sub_ℕ 0 t) b) × (b + t ≡ balance_of u db)
  debit-eq_ok h = ground (arith, debit_lem u kind ref audit db t)

  pub credit-ok-IsBalanced :
      credit u (pos t) kind ref audit db ≡ (ok b, db') → IsBalanced db → IsBalanced db'
  credit-ok-IsBalanced h i = rw (h, commit) at (credit-IsBalanced u kind ref audit db (pos t) i)

  pub debit-ok-IsBalanced :
      debit u (pos t) kind ref audit db ≡ (ok b, db') → IsBalanced db → IsBalanced db'
  debit-ok-IsBalanced h i = rw (h, commit) at (debit-IsBalanced u kind ref audit db (pos t) i)

-- The ledger has a payment's amounts added, and the payments are as they were.
pub record Moves (id amount bonus reversal : ℕ) (db db' : Db) : Type 0 where
  pub same_payments : db'.payments ≡ db.payments
  pub same_outbox : db'.outbox ≡ db.outbox
  pub grows : db.next_id ≤ db'.next_id
  pub tops :
      (j : ℕ)
      → topups j db'.transactions ≡ (if j == id then amount else 0) + topups j db.transactions
  pub bons :
      (j : ℕ)
      → bonuses j db'.transactions ≡ (if j == id then bonus else 0) + bonuses j db.transactions
  pub revs :
      (j : ℕ)
      → reversals j db'.transactions
        ≡ (if j == id then reversal else 0) + reversals j db.transactions
  pub keeps_balance : IsBalanced db → IsBalanced db'

module _ (u t id : ℕ) (db db' : Db) (b : ℕ) where
  topup-Moves : credit u (pos t) topup (some id) no_audit db ≡ (ok b, db') → Moves id t 0 0 db db'
  topup-Moves h = record {
    same_payments = ground (arith, credit-eq_ok u t topup (some id) no_audit db db' b h);
    same_outbox = ground (arith, credit-eq_ok u t topup (some id) no_audit db db' b h);
    grows = ground (arith, credit-eq_ok u t topup (some id) no_audit db db' b h);
    tops = λ j. ground (arith, credit-eq_ok u t topup (some id) no_audit db db' b h);
    bons = λ j. ground (arith, credit-eq_ok u t topup (some id) no_audit db db' b h);
    revs = λ j. ground (arith, credit-eq_ok u t topup (some id) no_audit db db' b h);
    keeps_balance = credit-ok-IsBalanced u t topup (some id) no_audit db db' b h;
  }

  bonus-Moves :
      credit u (pos t) topup_bonus (some id) no_audit db ≡ (ok b, db') → Moves id 0 t 0 db db'
  bonus-Moves h = record {
    same_payments = ground (arith, credit-eq_ok u t topup_bonus (some id) no_audit db db' b h);
    same_outbox = ground (arith, credit-eq_ok u t topup_bonus (some id) no_audit db db' b h);
    grows = ground (arith, credit-eq_ok u t topup_bonus (some id) no_audit db db' b h);
    tops = λ j. ground (arith, credit-eq_ok u t topup_bonus (some id) no_audit db db' b h);
    bons = λ j. ground (arith, credit-eq_ok u t topup_bonus (some id) no_audit db db' b h);
    revs = λ j. ground (arith, credit-eq_ok u t topup_bonus (some id) no_audit db db' b h);
    keeps_balance = credit-ok-IsBalanced u t topup_bonus (some id) no_audit db db' b h;
  }

  pub reversal-Moves :
      debit u (pos t) refund (some id) no_audit db ≡ (ok b, db') → Moves id 0 0 t db db'
  reversal-Moves h = record {
    same_payments = ground (arith, debit-eq_ok u t refund (some id) no_audit db db' b h);
    same_outbox = ground (arith, debit-eq_ok u t refund (some id) no_audit db db' b h);
    grows = ground (arith, debit-eq_ok u t refund (some id) no_audit db db' b h);
    tops = λ j. ground (arith, debit-eq_ok u t refund (some id) no_audit db db' b h);
    bons = λ j. ground (arith, debit-eq_ok u t refund (some id) no_audit db db' b h);
    revs = λ j. ground (arith, debit-eq_ok u t refund (some id) no_audit db db' b h);
    keeps_balance = debit-ok-IsBalanced u t refund (some id) no_audit db db' b h;
  }

-- A top-up and then a bonus.
Moves-trans :
    (id amount bonus : ℕ) (db₁ db₂ db₃ : Db)
    → Moves id amount 0 0 db₁ db₂
    → Moves id 0 bonus 0 db₂ db₃
    → Moves id amount bonus 0 db₁ db₃
Moves-trans id amount bonus db₁ db₂ db₃ m n = record {
  same_payments = n.same_payments ∙ m.same_payments;
  same_outbox = n.same_outbox ∙ m.same_outbox;
  grows = omega (arith, m.grows, n.grows);
  tops = λ j. ground (arith, m.tops j, n.tops j);
  bons = λ j. ground (arith, m.bons j, n.bons j);
  revs = λ j. ground (arith, m.revs j, n.revs j);
  keeps_balance = λ h. n.keeps_balance (m.keeps_balance h);
}

module _ (u amount bonus id : ℕ) (db db' : Db) (b : ℕ) where
  pub credit_topup-Moves :
      credit_topup u amount bonus id db ≡ (ok b, db') → Moves id amount bonus 0 db db'
  unfolding credit_topup
  credit_topup-Moves h = elim (Result-cases (credit u (pos amount) topup (some id) no_audit db)) [
    | inr (x, mid, refused) ↦ absurd (cc (rw (credit_topup, refused) at h))
    | inl (c, mid, done) ↦ elim (Bool-cases (bonus == 0)) [
      | inl zero_bonus ↦ rw ((==_iff bonus 0).0 zero_bonus) (
          subst (Moves id amount 0 0 db) (cc (rw (credit_topup, done, zero_bonus) at h))
            (topup-Moves u amount id db mid c done))
      | inr some_bonus ↦
          Moves-trans id amount bonus db mid db' (topup-Moves u amount id db mid c done)
            (bonus-Moves u bonus id mid db' b (rw (credit_topup, done, some_bonus) at h))
    ]
  ]

-- A caught debit that succeeds is the debit itself.
pub as_reversal-eq_ok :
    (r : Result ℕ × Db) (b : ℕ) (after : Db) → as_reversal r ≡ (ok b, after) → r ≡ (ok b, after)
as_reversal-eq_ok r b after e = ground arith

module _ (u amount bonus id : ℕ) (db db' : Db) (b : ℕ) where
  -- The last balance of a credited top-up is the user's, and has its amount and bonus added.
  pub credit_topup-balance :
      credit_topup u amount bonus id db ≡ (ok b, db')
      → (b ≡ balance_of u db + amount + bonus)
        × (balance_of u db' ≡ b)
        × ((v : ℕ) → v ≢ u → db'.wallets v ≡ db.wallets v)
  unfolding credit_topup
  credit_topup-balance h = elim (Result-cases (credit u (pos amount) topup (some id) no_audit db)) [
    | inr (x, mid, refused) ↦ absurd (cc (rw (credit_topup, refused) at h))
    | inl (c, mid, done) ↦
        let first = credit-eq_ok u amount topup (some id) no_audit db mid c done in
        elim (Bool-cases (bonus == 0)) [
          | inl zero_bonus ↦
              let e = rw (credit_topup, done, zero_bonus) at h in
              (ground arith, ground arith, λ v ne. ground arith)
          | inr some_bonus ↦
              let second =
                credit-eq_ok u bonus topup_bonus (some id) no_audit mid db' b
                  (rw (credit_topup, done, some_bonus) at h) in
              (ground arith, ground arith, λ v ne. ground arith)
        ]
  ]
