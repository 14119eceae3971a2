-- ===== src/Billing/Webhooks/ReceiptRuns.antt =====
-- The submits of receipts (billing/providers/click/click-fiscal.service.ts) as steps of the services.
use qayoda_backend.Base.{
  Bool, true, false, not, ◌||◌, List, [], ◌∷◌, if◌then◌else◌, or_default, str_eq, Bool-cases, inl,
  inr,
}
use qayoda_backend.Billing.Types.{Payment, click, provider_eq, paid, status_eq}
use qayoda_backend.Billing.Store.{Db, Result}
use qayoda_backend.Billing.Payments.{list_fiscal_due}
use qayoda_backend.Billing.Fiscal.{FiscalConfig, enabled}
use qayoda_backend.Billing.ClickFiscal.{Fetch, sent_ok, send_claimed, submit, submit_all, retry_due}
use qayoda_backend.Billing.Lifecycle.Steps.{Reach, here, next, claim, result}
use qayoda_backend.Billing.Webhooks.Runs.{after-Reach}

module _ (c : FiscalConfig) (fetch : Fetch) where
  send_claimed-Reach : (p : Payment) (s t : Db) → Reach s t → Reach s (send_claimed c fetch p t).1
  unfolding send_claimed
  send_claimed-Reach p s t w = elim (Bool-cases (str_eq (or_default p.provider_doc_id "") "")) [
    | inl missing ↦ rw missing (next w (result p.id false))
    | inr given ↦ rw given (next w (result p.id (sent_ok c fetch p t.now)))
  ]

  submit-Reach : (p : Payment) (s t : Db) → Reach s t → Reach s (submit c fetch p t).1
  unfolding submit
  submit-Reach p s t w =
      elim (Bool-cases
        (not (provider_eq p.provider click) || not (status_eq p.status paid) || not (enabled c))) [
          | inl other ↦ rw other w
          | inr owed ↦
              rw owed (after-Reach _ _ (next w (claim p.id)) (λ b u r. claimed-Reach p s b u r))
        ]
    where
      claimed-Reach :
          (p : Payment) (s : Db) (b : Bool) (u : Db)
          → Reach s u
          → Reach s ((if b then send_claimed c fetch p else (λ db. (Result.ok tt, db))) u).1
      claimed-Reach p s true u r = send_claimed-Reach p s u r
      claimed-Reach p s false u r = r

  submit_all-Reach : (ps : List Payment) (s t : Db) → Reach s t → Reach s (submit_all c fetch ps t)
  unfolding submit_all
  submit_all-Reach [] s t w = w
  submit_all-Reach (p ∷ ps) s t w =
      submit_all-Reach ps s (submit c fetch p t).1 (submit-Reach p s t w)

  -- The cron that submits the receipts that are due, whatever Click's server answers, is a sequence
  -- of the services' steps.
  pub retry_due-Reach : (db : Db) → Reach db (retry_due c fetch db)
  unfolding retry_due
  retry_due-Reach db = elim (Bool-cases (enabled c)) [
    | inl on ↦ rw on (submit_all-Reach (list_fiscal_due click 50 db) db db here)
    | inr off ↦ rw off here
  ]
