-- ===== src/Billing/Settlement/Charged.antt =====
-- Charges and refunds (wallet.service.ts), which concern no payment, keep the ledger sound.
use qayoda_backend.Base.{
  ℕ, ◌≤◌, List, ◌≡◌, refl, ◌||◌, Option, pos, negsuc, ℤ, arith, Bool-cases, Option-cases, inl, inr,
  any, find?, ◌&&◌, ◌==◌,
}
use qayoda_backend.Billing.Types.{
  refund as refund_kind, kind_of, TariffAction, Tariff, FreeGrant, is_first_free_action, action_eq,
}
use qayoda_backend.Billing.Store.{Db, ok, Result-cases, transaction, ◌>>◌, pure}
use qayoda_backend.Billing.Wallet.{get_balance, debit, credit, refund, no_audit, find_user}
use qayoda_backend.Billing.Wallet.Ledger.{credit-negsuc, get_balance_lem}
use qayoda_backend.Billing.Pricing.{charge, charge_tariff, is_admin}
use qayoda_backend.Billing.Settlement.Invariant.{IsSound}
use qayoda_backend.Billing.Settlement.Effects.{
  Moves, credit-eq_ok, debit-eq_ok, credit-ok-IsBalanced, debit-ok-IsBalanced,
}
use qayoda_backend.Billing.Settlement.Rows.{All-map}

-- A movement of the wallet that concerns no payment.
idle-IsSound : (db after : Db) → Moves 0 0 0 0 db after → IsSound db → IsSound after
idle-IsSound db after m h = record {
  balanced = m.keeps_balance h.balanced;
  below = rw m.same_payments (All-map _ _ db.payments (λ x lt. omega (arith, m.grows)) h.below);
  distinct = rw m.same_payments h.distinct;
  settled = rw m.same_payments (
      All-map _ _ db.payments (λ x s. ground (arith, m.tops x.id, m.bons x.id, m.revs x.id))
        h.settled);
  fresh = λ j le. ground (arith, h.fresh j, m.tops j, m.bons j, m.revs j, m.grows);
}

charge-Moves :
    (u t : ℕ) (action : TariffAction) (ref : Option ℕ) (db db' : Db) (b : ℕ)
    → debit u (pos t) (kind_of action) ref no_audit db ≡ (ok b, db')
    → Moves 0 0 0 0 db db'
charge-Moves u t action ref db db' b h = record {
  same_payments = ground (arith, debit-eq_ok u t (kind_of action) ref no_audit db db' b h);
  same_outbox = ground (arith, debit-eq_ok u t (kind_of action) ref no_audit db db' b h);
  grows = ground (arith, debit-eq_ok u t (kind_of action) ref no_audit db db' b h);
  tops = λ j. ground (arith, debit-eq_ok u t (kind_of action) ref no_audit db db' b h);
  bons = λ j. ground (arith, debit-eq_ok u t (kind_of action) ref no_audit db db' b h);
  revs = λ j. ground (arith, debit-eq_ok u t (kind_of action) ref no_audit db db' b h);
  keeps_balance = debit-ok-IsBalanced u t (kind_of action) ref no_audit db db' b h;
}

refund-Moves :
    (u t : ℕ) (ref : Option ℕ) (db db' : Db) (b : ℕ)
    → credit u (pos t) refund_kind ref no_audit db ≡ (ok b, db')
    → Moves 0 0 0 0 db db'
refund-Moves u t ref db db' b h = record {
  same_payments = ground (arith, credit-eq_ok u t refund_kind ref no_audit db db' b h);
  same_outbox = ground (arith, credit-eq_ok u t refund_kind ref no_audit db db' b h);
  grows = ground (arith, credit-eq_ok u t refund_kind ref no_audit db db' b h);
  tops = λ j. ground (arith, credit-eq_ok u t refund_kind ref no_audit db db' b h);
  bons = λ j. ground (arith, credit-eq_ok u t refund_kind ref no_audit db db' b h);
  revs = λ j. ground (arith, credit-eq_ok u t refund_kind ref no_audit db db' b h);
  keeps_balance = credit-ok-IsBalanced u t refund_kind ref no_audit db db' b h;
}

-- What concerns no payment: the payments stay as they are, and the ledger sound.
pub record Idle (db after : Db) : Type 0 where
  pub same_payments : after.payments ≡ db.payments
  pub grows : db.next_id ≤ after.next_id
  pub keeps : IsSound db → IsSound after

pub still : (db : Db) → Idle db db
still db = record { same_payments = refl; grows = omega arith; keeps = λ h. h }

pub moved : (db after : Db) → Moves 0 0 0 0 db after → Idle db after
moved db after m = record {
  same_payments = m.same_payments;
  grows = m.grows;
  keeps = idle-IsSound db after m;
}

module _ (u : ℕ) (ref : Option ℕ) (db : Db) where
  debited :
      (t : ℕ) (action : TariffAction)
      → Idle db (transaction (debit u (pos t) (kind_of action) ref no_audit >> pure tt) db).1
  debited t action = elim (Result-cases (debit u (pos t) (kind_of action) ref no_audit db)) [
    | inl (b, after, done) ↦ rw done (moved db after (charge-Moves u t action ref db after b done))
    | inr (x, after, refused) ↦ rw refused (still db)
  ]

  pub granted : (grants : List FreeGrant) → Idle db (record db { free_grants = grants })
  granted grants = record {
    same_payments = refl;
    grows = omega arith;
    keeps = λ h. record {
      balanced = record { accounted = h.balanced.accounted; bounded = h.balanced.bounded };
      below = h.below;
      distinct = h.distinct;
      settled = h.settled;
      fresh = h.fresh;
    };
  }

  -- A charge of a tariff, whatever its outcome.
  pub charge_tariff-Idle :
      (tariff : Tariff) → Idle db (transaction (charge_tariff u tariff ref) db).1
  unfolding charge_tariff
  charge_tariff-Idle tariff = elim (Bool-cases (is_admin (find_user u db) || tariff.price == 0)) [
    | inl waived ↦ rw waived (still db)
    | inr priced ↦ elim (Bool-cases (is_first_free_action tariff.action)) [
      | inr never_free ↦ rw (priced, never_free) (debited tariff.price tariff.action)
      | inl first_free ↦
          elim (Bool-cases
            (any (λ g. g.user_id == u && action_eq g.action tariff.action) db.free_grants)) [
              | inl spent ↦ rw (priced, first_free, spent) (debited tariff.price tariff.action)
              | inr unspent ↦ rw (priced, first_free, unspent) (granted _)
            ]
    ]
  ]

  -- A charge of an action, whatever its outcome.
  pub charge-Idle : (action : TariffAction) → Idle db (transaction (charge u action ref) db).1
  unfolding charge
  charge-Idle action =
      elim (Option-cases (find? (λ t. action_eq t.action action && t.is_active) db.tariffs)) [
        | inl unpriced ↦ rw unpriced (still db)
        | inr (t, found) ↦ rw found (charge_tariff-Idle t)
      ]

  -- A refund, whatever its outcome.
  pub refund-Idle : (amount : ℤ) → Idle db (transaction (refund u amount ref) db).1
  unfolding refund
  refund-Idle (negsuc n) = rw (credit-negsuc u refund_kind ref no_audit db n) (still db)
  refund-Idle (pos t) = elim (Result-cases (credit u (pos t) refund_kind ref no_audit db)) [
    | inl (b, after, done) ↦ rw done (moved db after (refund-Moves u t ref db after b done))
    | inr (x, after, refused) ↦ rw refused (still db)
  ]

  -- Reading a balance, which opens the wallet.
  pub get_balance-Idle : Idle db (get_balance u db).1
  get_balance-Idle = rw get_balance_lem record {
    same_payments = refl;
    grows = omega arith;
    keeps = λ h. record {
      balanced = record {
        accounted = λ v. ground (arith, h.balanced.accounted v);
        bounded = λ v. ground (arith, h.balanced.bounded v);
      };
      below = h.below;
      distinct = h.distinct;
      settled = h.settled;
      fresh = h.fresh;
    };
  }
