-- ===== src/Billing/Tests/Answers.antt =====
-- The theorems on the answers of Payme and Paynet at concrete inputs.
use qayoda_backend.Base.{◌≡◌, refl, true, none, some, [], ◌∷◌, pos, find?}
use qayoda_backend.Base.Text.{nonzero_number, uuid_of_codes, digits_from}
use qayoda_backend.Billing.Store.{Db, ok}
use qayoda_backend.Billing.Json.{text, number, undefined, number_of, show_ℕ, show_ℤ, string_of}
use qayoda_backend.Billing.Fiscal.{FiscalConfig}
use qayoda_backend.Billing.Wallet.{
  credit, assert_positive, ensure_wallet, get_balance, add_to, write_row, insert_transaction,
}
use qayoda_backend.Billing.Pricing.{bonus_for, bonus_tier_for}
use qayoda_backend.Billing.Payments.{
  mark_prepared, mark_paid, credit_topup, find_by_id, find_by_provider_txn, record_push_payment,
  insert_pushed, credit_pushed,
}
use qayoda_backend.Billing.Topup.{create_order, insert_order}
use qayoda_backend.Billing.Payme.{perform_read, perform_result}
use qayoda_backend.Billing.Paynet.{
  PaynetConfig, PaynetParams, PaynetFields, performed, perform, perform_push, performed_reply,
  push_amount, service_ok, txn_id_of, find_payer, fiscal_status,
}
use qayoda_backend.Billing.Lifecycle.Steps.{here}
use qayoda_backend.Billing.Lifecycle.Reachable.{Reach-IsSound}
use qayoda_backend.Billing.Webhooks.Answers.{payme-perform_again}
use qayoda_backend.Billing.Webhooks.PaynetAnswers.{paynet-perform_ok, Vouched}
use qayoda_backend.Billing.Tests.Data.{start, paid_db, paid_read, paid-Reach, start-IsSound}

abbrev without_receipts : FiscalConfig
without_receipts = record {
  mxik = none;
  package_code = none;
  tin = none;
  vat = none;
  item_name = none;
}

paid_row_found : find? (λ _. true) paid_db.payments ≡ some paid_read
unfolding create_order insert_order mark_prepared mark_paid bonus_for bonus_tier_for credit_topup
    credit assert_positive ensure_wallet get_balance add_to write_row insert_transaction
paid_row_found = refl

found_again : find_by_id paid_read.id paid_db ≡ some paid_read
unfolding find_by_id create_order insert_order mark_prepared mark_paid bonus_for bonus_tier_for
    credit_topup credit assert_positive ensure_wallet get_balance add_to write_row
    insert_transaction
found_again = refl

payme-perform_again_example :
    perform_read without_receipts paid_read paid_db ≡ (ok (perform_result paid_read), paid_db)
payme-perform_again_example =
    payme-perform_again without_receipts (λ _. true) paid_read paid_read
      (Reach-IsSound paid-Reach start-IsSound) paid_row_found refl here found_again

abbrev kiosk : PaynetConfig
kiosk = record {
  service_id = some "12, 13";
  username = some "paynet";
  password = some "secret";
  merchant_id = some "5";
  allowed_ips = none;
  account_field = none;
  fiscal = none;
}

abbrev form : PaynetFields
form = ("client_id", text "100001") ∷ []

abbrev push : PaynetParams
push = record {
  service_id = text "13";
  amount = number (pos 500000);
  transaction_id = text "555";
  date_from = undefined;
  date_to = undefined;
  fields = some form;
}

abbrev pushed_db : Db
pushed_db = (perform kiosk push start).1

performed_push : perform kiosk push start ≡ (ok (performed 1 1000 form 550000), pushed_db)
unfolding perform perform_push performed_reply push_amount service_ok txn_id_of find_payer
    fiscal_status nonzero_number uuid_of_codes digits_from number_of string_of show_ℕ show_ℤ
    find_by_provider_txn find_by_id record_push_payment insert_pushed credit_pushed bonus_for
    bonus_tier_for credit_topup credit assert_positive ensure_wallet get_balance add_to write_row
    insert_transaction
performed_push = refl

paynet-perform_ok_example : Vouched kiosk push 1 1000 form 550000 start pushed_db
paynet-perform_ok_example =
    paynet-perform_ok kiosk push 1 1000 form 550000 start pushed_db performed_push
