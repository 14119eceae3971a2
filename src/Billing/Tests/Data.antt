-- ===== src/Billing/Tests/Data.antt =====
-- A user, a bonus tier and an order of 5,000 so'm, from the empty database to the paid payment.
use qayoda_backend.Base.{◌≡◌, refl, true, none, some, List, [], ◌∷◌, find?}
use qayoda_backend.Billing.Types.{
  User, UserRole, UserStatus, BonusTier, Payment, PaymentStatus, click, body, FiscalStatus,
}
use qayoda_backend.Billing.Store.{Db}
use qayoda_backend.Billing.Payments.{mark_prepared, mark_paid, paid_row}
use qayoda_backend.Billing.Topup.{create_order, order_row, insert_order}
use qayoda_backend.Billing.Settlement.Invariant.{IsSound}
use qayoda_backend.Billing.Settlement.Snapshot.{IsSnapshot}
use qayoda_backend.Billing.Lifecycle.Kept.{read-IsSnapshot}
use qayoda_backend.Billing.Lifecycle.Steps.{Reach, here, next, order, prepare, pay}
use qayoda_backend.Billing.Lifecycle.Reachable.{empty_db, empty_db-IsSound, Reach-IsSound}

abbrev pub users : List User
users =
    record {
      id = 7;
      account_no = 100001;
      role = UserRole.user;
      status = UserStatus.active;
      name = some "Aziza";
      surname = some "Karimova";
      deleted_at = none;
    }
    ∷ []

abbrev pub tiers : List BonusTier
tiers = record { id = 1; min_amount = 100000; percent = 10; is_active = true } ∷ []

abbrev pub start : Db
start = empty_db 1000 users [] tiers

abbrev pub ordered : Db
ordered = (create_order 7 click 500000 none start).1

abbrev pub order_read : Payment
order_read = order_row 1000 0 1 click 7 500000 none

abbrev pub prepared_db : Db
prepared_db = (mark_prepared click order_read "77" body 1000 none ordered).1

abbrev pub prepared_read : Payment
prepared_read = record order_read {
  status = PaymentStatus.prepared;
  provider_txn_id = some "77";
  provider_payload = some body;
  provider_create_time = some 1000;
}

abbrev pub paid_db : Db
paid_db = (mark_paid click prepared_read "77" body FiscalStatus.none 1000 none prepared_db).1

abbrev pub paid_read : Payment
paid_read = paid_row 1000 50000 1000 "77" none body FiscalStatus.none prepared_read

pub prepared-Reach : Reach start prepared_db
prepared-Reach =
    next (next here (order 7 click 500000 none)) (prepare click order_read "77" body 1000 none)

pub start-IsSound : IsSound start
start-IsSound = empty_db-IsSound 1000 users [] tiers

pub prepared-IsSound : IsSound prepared_db
prepared-IsSound = Reach-IsSound prepared-Reach start-IsSound

pub prepared-found : find? (λ _. true) prepared_db.payments ≡ some prepared_read
unfolding create_order insert_order mark_prepared
prepared-found = refl

pub prepared-IsSnapshot : IsSnapshot prepared_read prepared_db
prepared-IsSnapshot =
    read-IsSnapshot (λ _. true) prepared_db prepared_read prepared-IsSound prepared-found

pub paid-Reach : Reach start paid_db
paid-Reach =
    next prepared-Reach
      (pay click prepared_read "77" body FiscalStatus.none 1000 none prepared-IsSnapshot)
