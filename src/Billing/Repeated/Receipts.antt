-- ===== src/Billing/Repeated/Receipts.antt =====
-- A receipt that two submits claim (`claimFiscal` of billing/payments.service.ts).
use qayoda_backend.Base.{
  ℕ, ◌+◌, ◌≤◌, ◌≡◌, ◌≢◌, refl, sym, ap, Bool, true, false, ◌&&◌, ◌==◌, List, [], ◌∷◌, any,
  update_where, All, arith, Bool-cases, inl, inr, ==_iff,
}
use qayoda_backend.Billing.Types.{Payment, sending, fiscal_claim_stale_ms}
use qayoda_backend.Billing.Store.{Db, Result, ok}
use qayoda_backend.Billing.Payments.{claim_fiscal, receipt_due}
use qayoda_backend.Billing.Settlement.Invariant.{HasDistinctIds, IsSound}

-- The row as a claim writes it.
abbrev claimed : ℕ → Payment → Payment
claimed now q = record q { fiscal_status = sending; updated_at = now }

abbrev due : ℕ → ℕ → Payment → Bool
due id now q = q.id == id && receipt_due now q

none_due :
    (id now t : ℕ) (xs : List Payment)
    → All (λ q. q.id ≢ id) xs
    → any (due id t) (update_where (due id now) (claimed now) xs) ≡ false
none_due id now t [] h = refl
none_due id now t (x ∷ xs) h =
    let other : (x.id == id) ≡ false = ground (arith, h.0) in
    rw (other, other) (none_due id now t xs h.1)

absent_due :
    (id now : ℕ) (xs : List Payment) → All (λ q. q.id ≢ id) xs → any (due id now) xs ≡ false
absent_due id now [] h = refl
absent_due id now (x ∷ xs) h =
    let other : (x.id == id) ≡ false = ground (arith, h.0) in rw other (absent_due id now xs h.1)

not_again :
    (id now t : ℕ) (x : Payment)
    → t ≤ now + fiscal_claim_stale_ms
    → due id t (claimed now x) ≡ false
not_again id now t x le = ground arith

claimed_once :
    (id now t : ℕ) (xs : List Payment)
    → HasDistinctIds xs
    → t ≤ now + fiscal_claim_stale_ms
    → any (due id now) xs ≡ true
    → any (due id t) (update_where (due id now) (claimed now) xs) ≡ false
claimed_once id now t [] h le e = absurd (cc e)
claimed_once id now t (x ∷ xs) h le e = elim (Bool-cases (x.id == id)) [
  | inl own ↦
      let key : x.id ≡ id = (==_iff x.id id).0 own in
      let apart : All (λ q. q.id ≢ id) xs = rw (← key) h.0 in
      elim (Bool-cases (due id now x)) [
        | inl hit ↦ rw (hit, not_again id now t x le) (none_due id now t xs apart)
        | inr miss ↦ absurd (cc (rw (miss, absent_due id now xs apart) at e))
      ]
  | inr other ↦ rw (other, other) (claimed_once id now t xs h.1 le (rw other at e))
]

-- In a sound state, after a submit has claimed a receipt, a second claim of it within fifteen
-- minutes fails, as long as the rows of payments are those that the first claim left: no result of a
-- submit has been written meanwhile.
pub claim_fiscal-once :
    (id : ℕ) (db db' s : Db)
    → IsSound db
    → claim_fiscal id db ≡ (ok true, db')
    → s.payments ≡ db'.payments
    → s.now ≤ db.now + fiscal_claim_stale_ms
    → (claim_fiscal id s).0 ≡ ok false
unfolding claim_fiscal
claim_fiscal-once id db db' s h e same le =
    let hit : any (due id db.now) db.payments ≡ true = cc in
    let rows : db'.payments ≡ update_where (due id db.now) (claimed db.now) db.payments =
      ap (λ (r : Result Bool × Db). r.1.payments) (sym e) in
    ap ok (rw (same, rows) (claimed_once id db.now s.now db.payments h.distinct le hit))
