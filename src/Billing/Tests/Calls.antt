-- ===== src/Billing/Tests/Calls.antt =====
-- The theorems on the webhooks at concrete inputs.
use qayoda_backend.Base.{ℕ, ◌≡◌, refl, true, none, some, String, List, [], ◌∷◌, pos}
use qayoda_backend.Billing.Types.{Payment, click, body, payme}
use qayoda_backend.Billing.Store.{Db}
use qayoda_backend.Base.Text.{codes, tiyin_of_text, digits_from, nonzero_number, uuid_of_codes}
use qayoda_backend.Billing.Pricing.{bonus_for, bonus_tier_for}
use qayoda_backend.Billing.Wallet.Ledger.{balance_of}
use qayoda_backend.Billing.Wallet.{
  credit, add_to, ensure_wallet, get_balance, assert_positive, write_row, insert_transaction,
}
use qayoda_backend.Billing.Json.{text, number, undefined, number_of, string_of, show_ℕ, show_ℤ}
use qayoda_backend.Billing.Fiscal.{FiscalConfig, enabled, vat_percent}
use qayoda_backend.Billing.Payments.{
  credit_topup, mark_paid, mark_prepared, find_by_prepare_id, find_by_provider_txn, find_by_id,
  record_push_payment, insert_pushed, credit_pushed, log_webhook,
}
use qayoda_backend.Billing.Topup.{create_order, insert_order, order_row}
use qayoda_backend.Billing.Click.{
  ClickBody, ClickCode, find_by_click_ref, click_ref, amount_matches, refusal, belongs, click_error,
  complete_read, complete, handle_webhook, verify_signature, has_fields, sign_text,
}
use qayoda_backend.Billing.Payme.{
  PaymeRpc, handle_rpc, authorized, handle_body, dispatch, perform, perform_read, as_ref, expired,
  fresh_result,
}
use qayoda_backend.Billing.Paynet.{
  PaynetConfig, PaynetRpc, HttpReply, handle, ip_allowed, service_ok, txn_id_of, push_amount,
  find_payer, perform_push, performed_reply, fiscal_status,
}
use qayoda_backend.Billing.Webhooks.PaymeHandled.{PaymeHandled, payme_handle_rpc-Handled}
use qayoda_backend.Billing.Webhooks.ClickRuns.{ClickHandled, click_handle_webhook-Handled}
use qayoda_backend.Billing.Webhooks.PaynetHandled.{PaynetHandled, paynet_handle-Handled}
use qayoda_backend.Billing.Webhooks.ClickConfirmed.{IsConfirmed, click-complete_ok}
use qayoda_backend.Billing.Tests.Data.{start, prepared_db, prepared-IsSound}

abbrev no_fiscal : FiscalConfig
no_fiscal = record { mxik = none; package_code = none; tin = none; vat = none; item_name = none }

-- A digest that always gives the same digits.
abbrev md5 : String → String
md5 s = "0abc"

abbrev completing : ClickBody
completing = record {
  click_trans_id = some "77";
  service_id = some "85772";
  click_paydoc_id = none;
  merchant_trans_id = some "1";
  merchant_prepare_id = some "1";
  amount = some "5000";
  action = some "1";
  sign_time = some "2026-10-22 12:00:00";
  sign_string = some "0ABC";
  error = text "0";
}

abbrev handled_db : Db
handled_db = (handle_webhook no_fiscal md5 (some "key") true completing prepared_db).1

handled :
    handle_webhook no_fiscal md5 (some "key") true completing prepared_db
    ≡ (record { error = ClickCode.ok; merchant_id = some 1 }, handled_db)
unfolding handle_webhook verify_signature has_fields sign_text complete find_by_click_ref click_ref
    number_of find_by_prepare_id complete_read refusal amount_matches belongs click_error show_ℕ
    enabled vat_percent create_order insert_order mark_prepared mark_paid bonus_for bonus_tier_for
    credit_topup credit assert_positive ensure_wallet get_balance add_to write_row
    insert_transaction tiyin_of_text
handled = refl

click-complete_ok_example :
    (t : Db) × (handled_db ≡ log_webhook click true t)
    × IsConfirmed md5 (some "key") completing (some 1) prepared_db t
click-complete_ok_example =
    click-complete_ok md5 (some "key") completing (some 1) prepared_db no_fiscal handled_db
      prepared-IsSound handled

click_handle_webhook-Handled_example :
    ClickHandled no_fiscal md5 (some "key") true completing prepared_db handled_db
click_handle_webhook-Handled_example =
    click_handle_webhook-Handled no_fiscal md5 (some "key") true completing prepared_db

-- An order of Payme's that was created under its transaction 77.
abbrev payme_order : Payment
payme_order = order_row 1000 0 1 payme 7 500000 none

abbrev created_db : Db
created_db =
    (mark_prepared payme payme_order "77" body 1000 none
      (create_order 7 payme 500000 none start).1).1

abbrev performing : PaymeRpc
performing = record {
  method = some "PerformTransaction";
  params = some record {
    id = text "77";
    time = undefined;
    amount = undefined;
    reason = undefined;
    from = undefined;
    to = undefined;
    payment_id = undefined;
  };
}

-- A decoding that always gives the right credentials.
abbrev payme_login : List ℕ → List ℕ
payme_login given = codes "Paycom:key"

payme_handle_rpc-Handled_example :
    PaymeHandled no_fiscal payme_login
      (some "key")
      (some "Basic UGF5Y29tOmtleQ==")
      performing
      created_db
      (handle_rpc no_fiscal payme_login
        (some "key")
        (some "Basic UGF5Y29tOmtleQ==")
        performing
        created_db)
payme_handle_rpc-Handled_example =
    payme_handle_rpc-Handled no_fiscal payme_login (some "key") (some "Basic UGF5Y29tOmtleQ==")
      performing created_db

abbrev terminal : PaynetConfig
terminal = record {
  service_id = some "12";
  username = some "paynet";
  password = some "secret";
  merchant_id = some "5";
  allowed_ips = none;
  account_field = none;
  fiscal = none;
}

abbrev pushing : PaynetRpc
pushing = record {
  jsonrpc = text "2.0";
  method = text "PerformTransaction";
  params = some record {
    service_id = text "12";
    amount = number (pos 500000);
    transaction_id = text "555";
    date_from = undefined;
    date_to = undefined;
    fields = some (("client_id", text "100001") ∷ []);
  };
}

abbrev paynet_login : List ℕ → List ℕ
paynet_login given = codes "paynet:secret"

abbrev pushed : HttpReply × Db
pushed =
    handle terminal paynet_login [] "POST" none (some "Basic cGF5bmV0OnNlY3JldA==") pushing start

paynet_handle-Handled_example :
    PaynetHandled terminal paynet_login [] "POST" none
      (some "Basic cGF5bmV0OnNlY3JldA==")
      pushing
      start
      pushed.0.http_status
      pushed.1
paynet_handle-Handled_example =
    paynet_handle-Handled terminal paynet_login [] "POST" none (some "Basic cGF5bmV0OnNlY3JldA==")
      pushing start

-- The two calls are let in, and each of them moves the money.
payme_performed :
    balance_of 7
      (handle_rpc no_fiscal payme_login
        (some "key")
        (some "Basic UGF5Y29tOmtleQ==")
        performing
        created_db).1
    ≡ 550000
unfolding handle_rpc authorized handle_body dispatch perform perform_read as_ref expired
    find_by_provider_txn create_order insert_order mark_prepared mark_paid bonus_for bonus_tier_for
    credit_topup credit assert_positive ensure_wallet get_balance add_to write_row
    insert_transaction fresh_result log_webhook
payme_performed = refl

paynet_pushed : balance_of 7 pushed.1 ≡ 550000
unfolding handle qayoda_backend.Billing.Paynet.authorized qayoda_backend.Billing.Paynet.handle_body
    qayoda_backend.Billing.Paynet.dispatch qayoda_backend.Billing.Paynet.perform ip_allowed
    service_ok string_of txn_id_of push_amount number_of find_by_provider_txn find_payer
    perform_push record_push_payment insert_pushed credit_pushed digits_from nonzero_number
    uuid_of_codes show_ℕ show_ℤ find_by_id performed_reply fiscal_status bonus_for bonus_tier_for
    credit_topup credit assert_positive ensure_wallet get_balance add_to write_row
    insert_transaction log_webhook
paynet_pushed = refl
