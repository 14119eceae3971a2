-- ===== src/PriceBids/Negotiation/Expiry.antt =====
-- The sweep writes what readers are shown already (price-bids/price-bids.service.ts).
use qayoda_backend.Base.{
  ℕ, zero, suc, ◌≡◌, refl, Bool, true, List, [], ◌∷◌, arith, All, All-both, All-map, All-select,
  ◌==◌, ==_iff, select, select-All, take, update_where, Bool-cases, inl, inr,
}
use qayoda_backend.PriceBids.Types.{PriceBid, PriceBidStatus, expired, BidDb}
use qayoda_backend.PriceBids.Rules.{shown_status}
use qayoda_backend.PriceBids.Place.{left}
use qayoda_backend.PriceBids.Sweep.{expire_due_bids, close_rows, is_one_of, is_due}

-- The statuses that readers are shown of a list of rows.
abbrev pub shown : ℕ → List PriceBid → List PriceBidStatus
shown now [] = []
shown now (b ∷ bs) = shown_status now b ∷ shown now bs

-- The primary key: rows with the same key are the same row.
abbrev pub HasKeys : List PriceBid → Type 0
HasKeys rows = All (λ x. All (λ y. y.id ≡ x.id → y ≡ x) rows) rows

All-take : (P : PriceBid → Type 0) (n : ℕ) (xs : List PriceBid) → All P xs → All P (take n xs)
All-take P zero xs h = tt
All-take P (suc n) [] h = tt
All-take P (suc n) (x ∷ xs) h = (h.0, All-take P n xs h.1)

-- A row with the key of one that is due is due.
one_of-due :
    (now : ℕ) (x : PriceBid) (rows : List PriceBid)
    → All (λ y. (is_due now y ≡ true) × (y.id ≡ x.id → y ≡ x)) rows
    → is_one_of rows x ≡ true
    → is_due now x ≡ true
one_of-due now x [] h e = absurd (cc e)
one_of-due now x (y ∷ ys) h e = elim (Bool-cases (y.id == x.id)) [
  | inl hit ↦ let same : y ≡ x = h.0.1 ((==_iff y.id x.id).0 hit) in rw (← same) h.0.0
  | inr miss ↦ one_of-due now x ys h.1 (rw miss at e)
]

-- A bid that is due is shown as expired before it is marked, and after.
due-shown :
    (now : ℕ) (b : PriceBid)
    → is_due now b ≡ true
    → shown_status now (left expired now b) ≡ shown_status now b
due-shown now b due = ground (arith, due)

shown-updated :
    (now : ℕ) (t : PriceBid → Bool) (xs : List PriceBid)
    → All (λ x. t x ≡ true → is_due now x ≡ true) xs
    → shown now (update_where t (left expired now) xs) ≡ shown now xs
shown-updated now t [] h = refl
shown-updated now t (x ∷ xs) h = elim (Bool-cases (t x)) [
  | inl hit ↦ rw hit (λ i. due-shown now x (h.0 hit) i ∷ shown-updated now t xs h.1 i)
  | inr miss ↦ rw miss (λ i. shown_status now x ∷ shown-updated now t xs h.1 i)
]

-- The hourly sweep changes no status that a reader is shown: what is shown of the rows after it is
-- what was shown before, since a pending bid past its time is shown as expired all along.
pub expire_due_bids-shown :
    (db : BidDb) → HasKeys db.bids → shown db.now (expire_due_bids db).bids ≡ shown db.now db.bids
unfolding expire_due_bids close_rows
expire_due_bids-shown db keys =
    let due = take 500 (select (is_due db.now) db.bids) in
    shown-updated db.now (is_one_of due) db.bids (
      All-map (λ x. All (λ y. y.id ≡ x.id → y ≡ x) db.bids)
        (λ x. is_one_of due x ≡ true → is_due db.now x ≡ true) db.bids
        (λ x k e.
          one_of-due db.now x due
            (All-take _ 500 (select (is_due db.now) db.bids) (
              All-both (λ y. is_due db.now y ≡ true) (λ y. y.id ≡ x.id → y ≡ x)
                (select (is_due db.now) db.bids) (select-All (is_due db.now) db.bids)
                (All-select (λ y. y.id ≡ x.id → y ≡ x) (is_due db.now) db.bids k)))
            e)
        keys)
