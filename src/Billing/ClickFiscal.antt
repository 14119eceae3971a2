-- ===== src/Billing/ClickFiscal.antt =====
-- ClickFiscalService (billing/providers/click/click-fiscal.service.ts): the receipts of Click's
-- payments. `fetch` is the call of Click's server, with the headers' clock: `none` is a throw.
use qayoda_backend.Base.{
  ℕ, Bool, false, not, ◌&&◌, ◌||◌, Option, none, some, String, List, [], ◌∷◌, if◌then◌else◌,
  or_default, str_eq, pos, eqb_ℤ,
}
use qayoda_backend.Billing.Types.{Payment, click, provider_eq, paid, status_eq}
use qayoda_backend.Billing.Store.{Db, Action, ◌>>=◌, pure, gets}
use qayoda_backend.Billing.Payments.{claim_fiscal, mark_fiscal_result, find_by_id, list_fiscal_due}
use qayoda_backend.Billing.Fiscal.{FiscalConfig, FiscalLine, enabled, topup_line}
use qayoda_backend.Billing.Json.{Value, undefined, null, number, number_of}

-- What is read of the response: `res.ok` and the two keys of its body.
pub record FetchReply : Type 0 where
  pub http_ok : Bool
  pub error_code : Value
  pub error : Value

-- `a ?? b`
abbrev pub first_given : Value → Value → Value
first_given undefined v = v
first_given null v = v
first_given w v = w

unfoldable pub accepted : Option FetchReply → Bool
accepted none = false
accepted (some r) =
    r.http_ok
    && elim (number_of (first_given r.error_code (first_given r.error (number (pos 0))))) [
      | none ↦ false
      | some n ↦ eqb_ℤ n (pos 0)
    ]

abbrev pub Fetch : Type 0
Fetch = (now : ℕ) → (doc : String) → FiscalLine → Option FetchReply

-- The `try` of `submit`: a line that cannot be built is a failure like one of the network.
unfoldable pub sent_ok : FiscalConfig → Fetch → Payment → ℕ → Bool
sent_ok c fetch p now = elim (topup_line c p.amount) [
  | none ↦ false
  | some line ↦ accepted (fetch now (or_default p.provider_doc_id "") line)
]

-- `submit`, once the receipt is claimed.
unfoldable pub send_claimed : FiscalConfig → Fetch → Payment → Action (Unit {0})
send_claimed c fetch p = do
  now ← gets (λ db. db.now)
  if str_eq (or_default p.provider_doc_id "") ""
      then mark_fiscal_result p.id false
      else mark_fiscal_result p.id (sent_ok c fetch p now)

unfoldable pub submit : FiscalConfig → Fetch → Payment → Action (Unit {0})
submit c fetch p =
    if not (provider_eq p.provider click) || not (status_eq p.status paid) || not (enabled c)
    then pure tt
    else (do claimed ← claim_fiscal p.id; if claimed then send_claimed c fetch p else pure tt)

unfoldable pub submit_for_payment : FiscalConfig → Fetch → ℕ → Action (Unit {0})
submit_for_payment c fetch id = do
  found ← gets (find_by_id id)
  elim found [ none ↦ pure tt | some p ↦ submit c fetch p ]

-- The loop of `retryDue`, which goes on after a failure.
unfoldable pub submit_all : FiscalConfig → Fetch → List Payment → Db → Db
submit_all c fetch [] db = db
submit_all c fetch (p ∷ ps) db = submit_all c fetch ps (submit c fetch p db).1

-- `listFiscalDue` takes 50 at a time.
unfoldable pub retry_due : FiscalConfig → Fetch → Db → Db
retry_due c fetch db = if enabled c then submit_all c fetch (list_fiscal_due click 50 db) db else db
