-- ===== src/Billing/Click.antt =====
-- ClickProvider (billing/providers/click/click.provider.ts): the Prepare and Complete callbacks.
-- A field of the body that is no string is `none`; a reply's echo of the body is left out.
use Prim.Native.String.{◌++◌}
use qayoda_backend.Base.{
  ℕ, suc, Bool, false, not, ◌&&◌, ◌||◌, Option, none, some, String, map, ◌+◌, leb, if◌then◌else◌,
  is_text, or_default, str_eq, ℤ, pos, negsuc,
}
use qayoda_backend.Base.Text.{codes, tiyin_of_text, same_bytes}
use qayoda_backend.Billing.Types.{Payment, PaymentStatus, click, FiscalStatus, pending, body}
use qayoda_backend.Billing.Store.{Db, Result, Action, err, ◌>>=◌, ◌>>◌, pure, gets}
use qayoda_backend.Billing.Payments.{
  find_by_prepare_id, mark_prepared, mark_paid, cancel, log_webhook, is_prepared,
}
use qayoda_backend.Billing.Fiscal.{FiscalConfig, enabled}
use qayoda_backend.Billing.Json.{Value, text, number_of, show_ℕ, show_ℤ}

-- `CLICK`: 0, then -1 to -9.
pub data ClickCode : Type 0 where
  ok sign_failed bad_amount bad_action already_paid : ClickCode
  not_found txn_not_found update_failed bad_request cancelled : ClickCode

pub record ClickBody : Type 0 where
  pub click_trans_id : Option String
  pub service_id : Option String
  pub click_paydoc_id : Option String
  pub merchant_trans_id : Option String
  pub merchant_prepare_id : Option String
  pub amount : Option String
  pub action : Option String
  pub sign_time : Option String
  pub sign_string : Option String
  pub error : Value

-- The code, and `merchant_prepare_id` or `merchant_confirm_id`.
pub record ClickReply : Type 0 where
  pub error : ClickCode
  pub merchant_id : Option ℕ

abbrev pub reply : ClickCode → ClickReply
reply code = record { error = code; merchant_id = none }

abbrev pub field : Option String → String
field v = or_default v ""

-- The text that is signed.
unfoldable pub sign_text : ClickBody → String → Bool → String
sign_text b secret complete =
    let front =
      field b.click_trans_id ++ field b.service_id ++ secret ++ field b.merchant_trans_id in
    let back = field b.amount ++ field b.action ++ field b.sign_time in
    front ++ (if complete then field b.merchant_prepare_id else "") ++ back

-- A required field is a text that is not empty.
abbrev pub is_filled : Option String → Bool
is_filled none = false
is_filled (some s) = not (str_eq s "")

-- `PREPARE_FIELDS` and `COMPLETE_FIELDS`
unfoldable pub has_fields : ClickBody → Bool → Bool
has_fields b complete =
    is_filled b.click_trans_id
    && is_filled b.service_id
    && is_filled b.merchant_trans_id
    && is_filled b.amount
    && is_filled b.action
    && is_filled b.sign_time
    && is_filled b.sign_string
    && (not complete || is_filled b.merchant_prepare_id)

-- `toLowerCase` of an ASCII letter.
abbrev pub lower : ℕ → ℕ
lower c = if leb b'A' c && leb c b'Z' then c + 32 else c

-- `md5` is Node's digest in hexadecimal digits.
unfoldable pub verify_signature : (String → String) → Option String → ClickBody → Bool → Bool
unfolding sign_text has_fields
verify_signature md5 none b complete = false
verify_signature md5 (some secret) b complete =
    not (str_eq secret "")
    && has_fields b complete
    && same_bytes (codes (md5 (sign_text b secret complete)))
        (map lower (codes (field b.sign_string)))

-- A whole number above 0.
unfoldable pub click_ref : String → Option ℕ
unfolding number_of
click_ref ref = elim (number_of (text ref)) [ some (pos (suc n)) ↦ some (suc n) | _ ↦ none ]

unfoldable pub find_by_click_ref : Option String → Db → Option Payment
find_by_click_ref none db = none
find_by_click_ref (some ref) db = elim (click_ref ref) [
  | none ↦ none
  | some id ↦ find_by_prepare_id click id db
]

-- At most one tiyin apart.
unfoldable pub amount_matches : Option String → ℕ → Bool
amount_matches none ours = false
amount_matches (some amount) ours = elim (tiyin_of_text amount) [
  | none ↦ false
  | some a ↦ leb a (ours + 1) && leb ours (a + 1)
]

-- The answer that the read payment alone gives: it is closed, or the amount is another.
unfoldable pub refusal : ClickBody → Payment → Option ClickCode
unfolding amount_matches
refusal b x = elim x.status [
  | PaymentStatus.paid ↦ some already_paid
  | PaymentStatus.cancelled ↦ some ClickCode.cancelled
  | _ ↦ if amount_matches b.amount x.amount then none else some bad_amount
]

-- `prepare`, once the payment is read.
unfoldable pub prepare_read : ClickBody → Payment → Action ClickReply
prepare_read b x = elim (refusal b x) [
  | some code ↦ pure (reply code)
  | none ↦ (do
    now ← gets (λ db. db.now)
    marked ← mark_prepared click x (field b.click_trans_id) body now b.click_paydoc_id
    pure (
        if marked
        then record { error = ClickCode.ok; merchant_id = some x.prepare_id }
        else reply ClickCode.cancelled))
]

unfoldable pub prepare : ClickBody → Bool → Action ClickReply
prepare b valid = do
  found ← gets (find_by_click_ref b.merchant_trans_id)
  if not (is_text "0" b.action)
      then pure (reply bad_action)
      else if not valid
      then pure (reply sign_failed)
      else elim found [ none ↦ pure (reply not_found) | some x ↦ prepare_read b x ]

-- Click reports that the payer's side failed: a whole number below 0.
unfoldable pub click_error : Value → Option ℤ
unfolding number_of
click_error v = elim (number_of v) [ some (negsuc n) ↦ some (negsuc n) | _ ↦ none ]

-- The payment is prepared by the Click transaction that the body names.
unfoldable pub belongs : ClickBody → Payment → Bool
unfolding show_ℕ
belongs b x =
    str_eq (show_ℕ x.prepare_id) (field b.merchant_prepare_id)
    && is_prepared x.status
    && is_text (field b.click_trans_id) x.provider_txn_id

-- `complete`, once the payment is read.
unfoldable pub complete_read : FiscalConfig → ClickBody → Payment → Action ClickReply
complete_read c b x = elim (refusal b x) [
  | some code ↦ pure (reply code)
  | none ↦ if not (belongs b x) then pure (reply txn_not_found) else elim (click_error b.error) [
    | some e ↦ (do
      now ← gets (λ db. db.now)
      cancel click x "provider_error" (some (show_ℤ e)) (some body) now
          >> pure (reply ClickCode.cancelled))
    | none ↦ (do
      now ← gets (λ db. db.now)
      marked ←
          mark_paid click x (field b.click_trans_id) body
            (if enabled c then pending else FiscalStatus.none) now b.click_paydoc_id
      pure (
          if marked
          then record { error = ClickCode.ok; merchant_id = some x.prepare_id }
          else reply already_paid))
  ]
]

unfoldable pub complete : FiscalConfig → ClickBody → Bool → Action ClickReply
complete c b valid = do
  found ← gets (find_by_click_ref b.merchant_trans_id)
  if not (is_text "1" b.action)
      then pure (reply bad_action)
      else if not valid
      then pure (reply sign_failed)
      else elim found [ none ↦ pure (reply not_found) | some x ↦ complete_read c b x ]

-- `catch` of `handleWebhook`, and the audit row.
abbrev pub answered : Bool → Result ClickReply × Db → ClickReply × Db
answered valid (Result.ok r, db) = (r, log_webhook click valid db)
answered valid (err e, db) = (reply update_failed, log_webhook click valid db)

-- `is_complete` is the step, the other is `prepare`.
unfoldable pub handle_webhook :
    FiscalConfig → (String → String) → Option String → Bool → ClickBody → Db → ClickReply × Db
handle_webhook c md5 secret is_complete b db =
    let valid = verify_signature md5 secret b is_complete in
    if is_complete
    then answered valid (complete c b valid db)
    else answered valid (prepare b valid db)
