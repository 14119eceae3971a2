-- ===== src/Billing/Tests/Admins.antt =====
-- The theorems on an admin's changes and on the receipts at concrete inputs.
use qayoda_backend.Base.{◌∷◌, [], ◌≡◌, refl, true, false, none, some, pos}
use qayoda_backend.Billing.Types.{Tariff, TariffAction}
use qayoda_backend.Billing.Store.{Db, ok}
use qayoda_backend.Billing.Wallet.{
  credit, assert_positive, ensure_wallet, get_balance, add_to, write_row, insert_transaction,
}
use qayoda_backend.Billing.Fiscal.{FiscalConfig}
use qayoda_backend.Billing.Admin.{adjust_wallet, run_adjust, adjust_by}
use qayoda_backend.Billing.Repeated.FreeActions.{granted}
use qayoda_backend.Billing.Manual.Keyed.{adjust_wallet-once}
use qayoda_backend.Billing.Tests.Data.{start}

abbrev adjusted_db : Db
adjusted_db = (adjust_wallet 1 7 (pos 5000) (some 33) start).1

adjusted :
    adjust_wallet 1 7 (pos 5000) (some 33) start
    ≡ (ok record { balance = 5000; repeated = false }, adjusted_db)
unfolding adjust_wallet run_adjust adjust_by credit assert_positive ensure_wallet get_balance add_to
    write_row insert_transaction
adjusted = refl

adjust_wallet-once_example :
    adjust_wallet 2 7 (pos 9000) (some 33) adjusted_db
    ≡ (ok record { balance = 5000; repeated = true }, adjusted_db)
adjust_wallet-once_example =
    adjust_wallet-once 1 2 7 33 5000 (pos 5000) (pos 9000) start adjusted_db adjusted

abbrev used_db : Db
used_db = granted 7 TariffAction.listing_post (some 40) start

abbrev receipts : FiscalConfig
receipts = record {
  mxik = some "10899002001000000";
  package_code = some "1500000";
  tin = some "301234567";
  vat = some "12";
  item_name = none;
}

abbrev week : Tariff
week = record {
  id = 3;
  action = TariffAction.listing_promote;
  price = 500000;
  duration_days = some 7;
  is_active = true;
}

abbrev month : Tariff
month = record week { id = 4; price = 1500000; duration_days = some 30 }

abbrev priced_db : Db
priced_db = record start { tariffs = month ∷ week ∷ [] }
