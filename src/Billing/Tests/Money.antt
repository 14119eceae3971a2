-- ===== src/Billing/Tests/Money.antt =====
-- The theorems on payments and wallets at concrete inputs.
use qayoda_backend.Billing.Settlement.Written.{
  IsMarked, mark_paid-IsMarked, IsTakenBack, reverse-IsTakenBack,
}
use qayoda_backend.Base.{ℕ, ◌+◌, ◌≡◌, ◌≢◌, refl, true, false, none, some, [], ◌∷◌, pos, arith}
use qayoda_backend.Billing.Types.{
  Payment, paynet, Tariff, BonusTier, TariffAction, TxKind, click, body, FiscalStatus, payment_paid,
}
use qayoda_backend.Billing.Store.{Db, ok, err, pure, ◌>>◌, reversal_not_possible, client_id_reused}
use qayoda_backend.Billing.Wallet.{
  credit, debit, no_audit, add_to, ensure_wallet, get_balance, assert_positive, write_row,
  insert_transaction, debited, take_from,
}
use qayoda_backend.Billing.Wallet.Ledger.{balance_of}
use qayoda_backend.Billing.Wallet.Balanced.{IsBalanced}
use qayoda_backend.Billing.Pricing.{bonus_for, bonus_tier_for, charge_tariff}
use qayoda_backend.Billing.Payments.{
  mark_prepared, mark_paid, credit_topup, reverse, record_push_payment, claim_fiscal, find_by_id,
  insert_pushed, credit_pushed, pushed_row,
}
use qayoda_backend.Billing.Topup.{order_row, create_order, insert_order}
use qayoda_backend.Billing.Settlement.Invariant.{IsSettled, IsSound}
use qayoda_backend.Billing.Settlement.Snapshot.{Descends}
use qayoda_backend.Billing.Settlement.Outcomes.{bonus_of}
use qayoda_backend.Billing.Lifecycle.Steps.{here, next, configure, configured, pay}
use qayoda_backend.Billing.Lifecycle.Reachable.{
  Reach-IsSound, Reach-IsSettled, Reach-IsBalanced, Reach-Descends,
}
use qayoda_backend.Billing.Lifecycle.Once.{mark_paid-credits, mark_paid-once}
use qayoda_backend.Billing.Repeated.Reversals.{reverse-spent}
use qayoda_backend.Billing.Repeated.FreeActions.{charge_tariff-once}
use qayoda_backend.Billing.Repeated.Pushes.{record_push_payment-once}
use qayoda_backend.Billing.Repeated.Orders.{create_order-again}
use qayoda_backend.Billing.Repeated.Receipts.{claim_fiscal-once}
use qayoda_backend.Billing.Tests.Data.{
  users, tiers, start, prepared_db, prepared_read, paid_db, paid_read, prepared-Reach, paid-Reach,
  start-IsSound, prepared-IsSound, prepared-IsSnapshot, prepared-found,
}

paid_found : find_by_id 0 paid_db ≡ some paid_read
unfolding find_by_id create_order insert_order mark_prepared mark_paid bonus_for bonus_tier_for
    credit_topup credit assert_positive ensure_wallet get_balance add_to write_row
    insert_transaction
paid_found = refl

paid_done :
    mark_paid click prepared_read "77" body FiscalStatus.none 1000 none prepared_db
    ≡ (ok true, paid_db)
unfolding create_order insert_order mark_prepared mark_paid bonus_for bonus_tier_for credit_topup
    credit assert_positive ensure_wallet get_balance add_to write_row insert_transaction
paid_done = refl

Reach-IsSettled_example : IsSettled paid_db.transactions paid_read
Reach-IsSettled_example = Reach-IsSettled 1000 users [] tiers 0 paid_read paid-Reach paid_found

Reach-IsBalanced_example : IsBalanced paid_db
Reach-IsBalanced_example = Reach-IsBalanced 1000 users [] tiers paid-Reach

mark_paid-once_example :
    mark_paid click prepared_read "78" body FiscalStatus.none 2000 none
      (configured 2000 users [] tiers paid_db)
    ≡ (ok false, configured 2000 users [] tiers paid_db)
mark_paid-once_example =
    mark_paid-once click prepared_read "77" body FiscalStatus.none 1000 none prepared_db paid_db
      paid_done "78" body FiscalStatus.none 2000 none refl prepared-IsSnapshot prepared-IsSound
      (next here (configure 2000 users [] tiers))

mark_paid-credits_example :
    (balance_of 7 paid_db ≡ balance_of 7 prepared_db + 500000 + bonus_of 500000 prepared_db)
    × ((v : ℕ) → v ≢ 7 → paid_db.wallets v ≡ prepared_db.wallets v)
    × (paid_db.outbox
        ≡ payment_paid 0 7 click 500000 (bonus_of 500000 prepared_db) (balance_of 7 paid_db)
          ∷ prepared_db.outbox)
mark_paid-credits_example =
    mark_paid-credits click prepared_read "77" body FiscalStatus.none 1000 none prepared_db paid_db
      paid_done

Reach-Descends_example : Descends prepared_read paid_read
Reach-Descends_example =
    Reach-Descends (λ _. true) prepared_read paid_read prepared-IsSound prepared-found
      (next here
        (pay click prepared_read "77" body FiscalStatus.none 1000 none prepared-IsSnapshot))
      paid_found

abbrev one_paid : Db
one_paid = record start { payments = paid_read ∷ []; wallets = λ _. some 550000 }

reverse-spent_example :
    reverse click paid_read "support" none 2000 (record paid_db { wallets = λ _. some 100 })
    ≡ (err reversal_not_possible, record paid_db { wallets = λ _. some 100 })
unfolding create_order insert_order mark_prepared mark_paid bonus_for bonus_tier_for credit_topup
    credit assert_positive ensure_wallet get_balance add_to write_row insert_transaction
reverse-spent_example =
    reverse-spent click paid_read (record paid_db { wallets = λ _. some 100 }) "support" none 2000
      refl refl (omega arith) (omega arith)

abbrev posting : Tariff
posting = record {
  id = 1;
  action = TariffAction.listing_post;
  price = 300000;
  duration_days = none;
  is_active = true;
}

abbrev client_db : Db
client_db = (create_order 7 click 500000 (some 9) start).1

create_order-again_example : create_order 7 click 600000 (some 9) client_db ≡ (
  err client_id_reused,
  record client_db { next_id = client_db.next_id + 1; next_prepare = client_db.next_prepare + 1 },
)
unfolding create_order insert_order
create_order-again_example =
    create_order-again 7 click 600000 9 client_db (order_row 1000 0 1 click 7 500000 (some 9)) refl

abbrev owed_db : Db
owed_db = (mark_paid click prepared_read "77" body FiscalStatus.pending 1000 none prepared_db).1

owed-IsSound : IsSound owed_db
owed-IsSound =
    Reach-IsSound
      (next prepared-Reach
        (pay click prepared_read "77" body FiscalStatus.pending 1000 none prepared-IsSnapshot))
      start-IsSound

abbrev tier : BonusTier
tier = record { id = 1; min_amount = 100000; percent = 10; is_active = true }

mark_paid-IsMarked_example :
    (q : Payment) × IsMarked click prepared_read prepared_db paid_db "77" FiscalStatus.none 1000 q
unfolding create_order insert_order mark_prepared mark_paid bonus_for bonus_tier_for credit_topup
    credit assert_positive ensure_wallet get_balance add_to write_row insert_transaction
mark_paid-IsMarked_example =
    mark_paid-IsMarked click prepared_read prepared_db paid_db "77" body FiscalStatus.none 1000 none
      prepared-IsSound.distinct refl

abbrev returned_db : Db
returned_db = (reverse click paid_read "support" none 2000 paid_db).1

reverse-IsTakenBack_example :
    (q : Payment) × IsTakenBack click paid_read paid_db returned_db "support" none 2000 q
unfolding create_order insert_order mark_prepared mark_paid bonus_for bonus_tier_for credit_topup
    credit assert_positive ensure_wallet get_balance add_to write_row insert_transaction reverse
    debit debited take_from
reverse-IsTakenBack_example =
    reverse-IsTakenBack click paid_read paid_db returned_db "support" none 2000
      (Reach-IsSound paid-Reach start-IsSound).distinct refl

charge_tariff-once_example :
    ((charge_tariff 7 posting (some 40) start).0 ≡ ok tt)
    × ((charge_tariff 7 posting (some 40) start).1.wallets ≡ start.wallets)
    × ((charge_tariff 7 posting (some 40) start).1.transactions ≡ start.transactions)
    × (charge_tariff 7 posting (some 41) (charge_tariff 7 posting (some 40) start).1
        ≡ (debit 7 (pos 300000) TxKind.listing_post (some 41) no_audit >> pure tt)
            (charge_tariff 7 posting (some 40) start).1)
charge_tariff-once_example =
    charge_tariff-once 7 posting posting (some 40) (some 41) start refl refl refl refl refl

abbrev pushed : Db
pushed = (record_push_payment paynet 7 500000 "77" body FiscalStatus.none start).1

abbrev pushed_payment : Payment
pushed_payment = pushed_row 1000 0 1 paynet 7 500000 50000 "77" body FiscalStatus.none

record_push_payment-once_example :
    record_push_payment paynet 8 900000 "77" body FiscalStatus.none (record pushed { now = 9000 })
    ≡ (
      ok none,
      record pushed {
        now = 9000;
        next_id = pushed.next_id + 1;
        next_prepare = pushed.next_prepare + 1;
      },
    )
unfolding record_push_payment insert_pushed credit_pushed find_by_id bonus_for bonus_tier_for
    credit_topup credit assert_positive ensure_wallet get_balance add_to write_row
    insert_transaction
record_push_payment-once_example =
    record_push_payment-once paynet 7 500000 8 900000 "77" body body FiscalStatus.none
      FiscalStatus.none start pushed (record pushed { now = 9000 }) pushed_payment refl refl

claim_fiscal-once_example :
    (claim_fiscal 0 (record (claim_fiscal 0 owed_db).1 { now = 500000 })).0 ≡ ok false
unfolding claim_fiscal create_order insert_order mark_prepared mark_paid bonus_for bonus_tier_for
    credit_topup credit assert_positive ensure_wallet get_balance add_to write_row
    insert_transaction
claim_fiscal-once_example =
    claim_fiscal-once 0 owed_db (claim_fiscal 0 owed_db).1
      (record (claim_fiscal 0 owed_db).1 { now = 500000 }) owed-IsSound refl refl (omega arith)
