-- ===== src/Billing/Webhooks/ClickChecked.antt =====
-- What the tests of Click's callbacks (billing/providers/click/click.provider.ts) tell of a body.
use Prim.Native.String.{◌++◌}
use qayoda_backend.Base.{
  map, ◌+◌, ◌≤◌, str_eq, eq_iff, sym, ap, ℕ, ◌≡◌, refl, Bool, true, false, inl, inr, Option, none,
  some, String, arith, Bool-cases, Option-cases, is_text, if◌then◌else◌,
}
use qayoda_backend.Billing.Types.{Payment, PaymentStatus, click}
use qayoda_backend.Billing.Store.{Db}
use qayoda_backend.Billing.Click.{
  ClickBody, field, verify_signature, find_by_click_ref, refusal, belongs, complete, lower,
  click_ref, amount_matches, sign_text, has_fields,
}
use qayoda_backend.Base.Text.{codes, same_bytes, tiyin_of_text}
use qayoda_backend.Billing.Payments.{find_by_prepare_id, is_prepared}
use qayoda_backend.Billing.Json.{show_ℕ}

-- The amount of the body, in tiyin, and what it may differ by from the payment's.
pub is_close :
    (given : Option String) (ours : ℕ)
    → amount_matches given ours ≡ true
    → (text : String) × (t : ℕ) × (given ≡ some text)
      × (tiyin_of_text text ≡ some t)
      × (t ≤ ours + 1)
      × (ours ≤ t + 1)
unfolding amount_matches
is_close none ours e = absurd (cc e)
is_close (some text) ours e = elim (Option-cases (tiyin_of_text text)) [
  | inl nan ↦ absurd (cc (rw (nan, amount_matches) at e))
  | inr (t, read) ↦
      let close = rw (read, amount_matches) at e in
      (text, t, refl, read, ground (arith, close), ground (arith, close))
]

pub refusal-amount :
    (b : ClickBody) (x : Payment) → refusal b x ≡ none → amount_matches b.amount x.amount ≡ true
unfolding refusal
refusal-amount b x e = ground arith

is_text-eq : (s : String) (o : Option String) → is_text s o ≡ true → o ≡ some s
is_text-eq s none h = absurd (cc h)
is_text-eq s (some t) h = ap some (sym ((eq_iff s t).0 h))

pub belongs-parts :
    (b : ClickBody) (x : Payment)
    → belongs b x ≡ true
    → (show_ℕ x.prepare_id ≡ field b.merchant_prepare_id)
      × (x.status ≡ PaymentStatus.prepared)
      × (x.provider_txn_id ≡ some (field b.click_trans_id))
unfolding belongs
belongs-parts b x h =
    let number : str_eq (show_ℕ x.prepare_id) (field b.merchant_prepare_id) ≡ true = ground arith in
    let open_still : is_prepared x.status ≡ true = ground arith in
    let own : is_text (field b.click_trans_id) x.provider_txn_id ≡ true = ground arith in
    ((eq_iff _ _).0 number, ground arith, is_text-eq _ _ own)

-- The text that Click signs with the shop's key; a Complete has the prepare id in it.
abbrev pub signed_text : Bool → ClickBody → String → String
signed_text complete b key =
    (field b.click_trans_id ++ field b.service_id ++ key ++ field b.merchant_trans_id)
    ++ (if complete then field b.merchant_prepare_id else "")
    ++ (field b.amount ++ field b.action ++ field b.sign_time)

pub signed-parts :
    (md5 : String → String) (secret : Option String) (b : ClickBody) (complete : Bool)
    → verify_signature md5 secret b complete ≡ true
    → (key : String) × (secret ≡ some key)
      × (str_eq key "" ≡ false)
      × (same_bytes
            (codes (md5 (signed_text complete b key)))
            (map lower (codes (field b.sign_string)))
          ≡ true)
unfolding verify_signature sign_text
signed-parts md5 none b complete h = absurd (cc h)
signed-parts md5 (some key) b complete h = elim (Bool-cases (str_eq key "")) [
  | inl blank ↦ absurd (cc (rw blank at h))
  | inr filled ↦ elim (Bool-cases (has_fields b complete)) [
    | inr missing ↦ absurd (cc (rw (filled, missing) at h))
    | inl present ↦ (key, refl, filled, rw (filled, present) at h)
  ]
]

pub referred :
    (ref : Option String) (db : Db) (x : Payment)
    → find_by_click_ref ref db ≡ some x
    → (text : String) × (id : ℕ) × (ref ≡ some text)
      × (click_ref text ≡ some id)
      × (find_by_prepare_id click id db ≡ some x)
unfolding find_by_click_ref
referred none db x e = absurd (cc e)
referred (some text) db x e = elim (Option-cases (click_ref text)) [
  | inl nan ↦ absurd (cc (rw (nan, find_by_click_ref) at e))
  | inr (id, read) ↦ (text, id, refl, read, rw (read, find_by_click_ref) at e)
]
