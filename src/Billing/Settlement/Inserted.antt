-- ===== src/Billing/Settlement/Inserted.antt =====
-- New payments: an order (topup.service.ts), and a top-up that is born paid (`recordPushPayment` of
-- payments.service.ts), which is credited once or leaves nothing.
use qayoda_backend.Base.{
  ℕ, ◌+◌, ◌≡◌, ◌≢◌, refl, Bool, true, false, ◌&&◌, Option, none, some, String, ◌∷◌, any, find?,
  arith, Bool-cases, Option-cases, inl, inr, is_text, not, ◌||◌, ◌==◌,
}
use qayoda_backend.Billing.Types.{
  PaymentProviderKind, provider_eq, Payment, Payload, FiscalStatus, payment_paid,
}
use qayoda_backend.Billing.Store.{Db, Result, ok, Result-cases}
use qayoda_backend.Billing.Payments.{pushed_row, credit_topup, record_push_payment, find_by_id}
use qayoda_backend.Billing.Topup.{insert_order, create_order, of_client}
use qayoda_backend.Billing.Settlement.Invariant.{IsSound}
use qayoda_backend.Billing.Settlement.Effects.{credit_topup-Moves}
use qayoda_backend.Billing.Settlement.Moved.{IsSound-outbox}
use qayoda_backend.Billing.Settlement.Outcomes.{bonus_of}
use qayoda_backend.Billing.Settlement.Rows.{All-map, All-both}

-- The client id is given, and names an order of the user's.
abbrev pub has_client : ℕ → Option ℕ → Db → Bool
has_client user none db = false
has_client user (some client) db = any (of_client user client) db.payments

-- Whatever `createOrder` answers, it leaves what its INSERT left.
pub create_order-state :
    (user : ℕ) (kind : PaymentProviderKind) (amount : ℕ) (client : Option ℕ) (db : Db)
    → (create_order user kind amount client db).1
      ≡ (insert_order (has_client user client db) kind user amount client db).1
unfolding create_order
create_order-state user kind amount none db = refl
create_order-state user kind amount (some client) db =
    elim (Option-cases (
      find? (of_client user client)
        (insert_order (any (of_client user client) db.payments) kind user amount (some client)
          db).1.payments)) [
            | inl absent ↦ rw absent
            | inr (p, found) ↦
                elim (Bool-cases (not (p.amount == amount) || not (provider_eq p.provider kind))) [
                  | inl reused ↦ rw (found, reused)
                  | inr same ↦ rw (found, same)
                ]
          ]

module _ (db : Db) (provider : PaymentProviderKind) (user amount : ℕ) (txn : String)
    (payload : Payload) (fiscal : FiscalStatus) where
  -- The state once the row is inserted.
  abbrev pub inserted : Db
  inserted = record db {
    next_id = db.next_id + 1;
    next_prepare = db.next_prepare + 1;
    payments =
        pushed_row db.now db.next_id db.next_prepare provider user amount (bonus_of amount db) txn
          payload fiscal
        ∷ db.payments;
  }

  -- `recordPushPayment` skips a duplicate, leaves nothing of a refused credit, or credits the new
  -- payment and tells it.
  pub data Pushed (r : Result (Option Payment) × Db) : Type 0 where
    skipped :
        r ≡ (ok none, record db { next_id = db.next_id + 1; next_prepare = db.next_prepare + 1 })
        → Pushed r
    refused : r.1 ≡ db → ((x : Payment) → r.0 ≢ ok (some x)) → Pushed r
    pushed :
        (b : ℕ) (after : Db)
        → credit_topup user amount (bonus_of amount db) db.next_id inserted ≡ (ok b, after)
        → r.1 ≡ record after {
          outbox =
              payment_paid db.next_id user provider amount (bonus_of amount db) b ∷ after.outbox;
        }
        → Pushed r

  pub record_push_payment-Pushed :
      Pushed (record_push_payment provider user amount txn payload fiscal db)
  unfolding record_push_payment
  record_push_payment-Pushed =
      elim (Bool-cases
        (any (λ q. provider_eq q.provider provider && is_text txn q.provider_txn_id) db.payments)) [
          | inl dup ↦ rw dup (skipped refl)
          | inr free ↦
              elim (Result-cases
                (credit_topup user amount (bonus_of amount db) db.next_id inserted)) [
                  | inr (x, after, no_credit) ↦ rw (free, no_credit) (refused refl (λ x q. cc))
                  | inl (b, after, done) ↦
                      let events =
                        payment_paid db.next_id user provider amount (bonus_of amount db) b
                        ∷ after.outbox in
                      elim (Option-cases
                        (find_by_id db.next_id (record after { outbox = events }))) [
                          | inl absent ↦ rw (free, done, absent) (pushed b after done refl)
                          | inr (p, found) ↦ rw (free, done, found) (pushed b after done refl)
                        ]
                ]
        ]

module _ (db : Db) (h : IsSound db) where
  insert_order-IsSound :
      (skip : Bool) (kind : PaymentProviderKind) (user amount : ℕ) (client : Option ℕ)
      → IsSound (insert_order skip kind user amount client db).1
  unfolding insert_order
  insert_order-IsSound true kind user amount client = record {
    balanced = record { accounted = h.balanced.accounted; bounded = h.balanced.bounded };
    below = All-map _ _ db.payments (λ x lt. omega arith) h.below;
    distinct = h.distinct;
    settled = h.settled;
    fresh = λ id le. h.fresh id (omega arith);
  }
  insert_order-IsSound false kind user amount client = record {
    balanced = record { accounted = h.balanced.accounted; bounded = h.balanced.bounded };
    below = (omega arith, All-map _ _ db.payments (λ x lt. omega arith) h.below);
    distinct = (All-map _ _ db.payments (λ x lt. omega arith) h.below, h.distinct);
    settled = (ground (arith, h.fresh db.next_id), h.settled);
    fresh = λ id le. h.fresh id (omega arith);
  }

  -- A new order, or the one that its client id already has.
  pub create_order-IsSound :
      (user : ℕ) (kind : PaymentProviderKind) (amount : ℕ) (client : Option ℕ)
      → IsSound (create_order user kind amount client db).1
  create_order-IsSound user kind amount client =
      rw (create_order-state user kind amount client db)
        (insert_order-IsSound (has_client user client db) kind user amount client)

  module _ (provider : PaymentProviderKind) (user amount : ℕ) (txn : String) (payload : Payload)
      (fiscal : FiscalStatus) where
    abbrev start : Db
    start = inserted db provider user amount txn payload fiscal

    pushed_after :
        (b : ℕ) (after : Db)
        → credit_topup user amount (bonus_of amount db) db.next_id start ≡ (ok b, after)
        → IsSound after
    pushed_after b after done =
        let m = credit_topup-Moves user amount (bonus_of amount db) db.next_id start after b done in
        record {
          balanced =
              m.keeps_balance
                (record { accounted = h.balanced.accounted; bounded = h.balanced.bounded });
          below = rw m.same_payments (
            omega (arith, m.grows),
            All-map _ _ db.payments (λ x lt. omega (arith, m.grows)) h.below,
          );
          distinct =
              rw m.same_payments
                (All-map _ _ db.payments (λ x lt. omega arith) h.below, h.distinct);
          settled = rw m.same_payments (
            ground (
              arith,
              m.tops db.next_id,
              m.bons db.next_id,
              m.revs db.next_id,
              h.fresh db.next_id,
            ),
            All-map _ _ db.payments (λ x r. ground (arith, m.tops x.id, m.bons x.id, m.revs x.id))
                (All-both _ _ db.payments h.settled h.below),
          );
          fresh = λ j le. ground (arith, h.fresh j, m.tops j, m.bons j, m.revs j, m.grows);
        }

    -- The sequences move on when the reference is taken.
    skipped-IsSound :
        IsSound (record db { next_id = db.next_id + 1; next_prepare = db.next_prepare + 1 })
    skipped-IsSound = record {
      balanced = record { accounted = h.balanced.accounted; bounded = h.balanced.bounded };
      below = All-map _ _ db.payments (λ x lt. omega arith) h.below;
      distinct = h.distinct;
      settled = h.settled;
      fresh = λ id le. h.fresh id (omega arith);
    }

    -- `recordPushPayment` keeps the ledger sound, whatever its outcome.
    pub record_push_payment-IsSound :
        IsSound (record_push_payment provider user amount txn payload fiscal db).1
    record_push_payment-IsSound =
        elim (record_push_payment-Pushed db provider user amount txn payload fiscal) [
          | skipped e ↦ rw e skipped-IsSound
          | refused e _ ↦ rw e h
          | pushed b after done e ↦ rw e (IsSound-outbox after _ (pushed_after b after done))
        ]
