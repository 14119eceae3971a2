-- ===== src/Billing/Lifecycle/Kept.antt =====
-- A payment that was read (find_by… of payments.service.ts) and the ways a table may change after.
use qayoda_backend.Base.{
  ◌≤◌, ◌<◌, ◌≡◌, ◌≢◌, sym, Bool, true, some, List, [], ◌∷◌, All, find?, arith, Bool-cases, inl, inr,
  update_where,
}
use qayoda_backend.Billing.Types.{Payment}
use qayoda_backend.Billing.Store.{Db}
use qayoda_backend.Billing.Settlement.Invariant.{HasDistinctIds, IsSound}
use qayoda_backend.Billing.Settlement.Snapshot.{Descends, Descends-refl, Descends-trans, IsSnapshot}
use qayoda_backend.Billing.Settlement.Rows.{update_where-All, All-map}

-- What is read from a sound table is a snapshot of it.
pub read-IsSnapshot :
    (t : Payment → Bool) (db : Db) (p : Payment)
    → IsSound db
    → find? t db.payments ≡ some p
    → IsSnapshot p db
read-IsSnapshot t db p h e = record {
  known = known_row db.payments h.below e;
  row = only_row db.payments h.distinct e;
}
  where
    known_row :
        (xs : List Payment)
        → All (λ q. q.id < db.next_id) xs
        → find? t xs ≡ some p
        → p.id < db.next_id
    known_row [] b f = cc
    known_row (x ∷ xs) b f = elim (Bool-cases (t x)) [
      | inl hit ↦ ground arith
      | inr miss ↦ known_row xs b.1 (rw miss at f)
    ]

    others :
        (xs : List Payment) → All (λ q. q.id ≢ p.id) xs → All (λ q. q.id ≡ p.id → Descends p q) xs
    others xs d = All-map _ _ xs (λ x ne same. absurd (ne same)) d

    found_other :
        (x : Payment) (xs : List Payment)
        → All (λ q. q.id ≢ x.id) xs
        → find? t xs ≡ some p
        → p.id ≢ x.id
    found_other x [] d f = cc
    found_other x (y ∷ ys) d f = elim (Bool-cases (t y)) [
      | inl hit ↦ ground arith
      | inr miss ↦ found_other x ys d.1 (rw miss at f)
    ]

    only_row :
        (xs : List Payment)
        → HasDistinctIds xs
        → find? t xs ≡ some p
        → All (λ q. q.id ≡ p.id → Descends p q) xs
    only_row [] d f = tt
    only_row (x ∷ xs) d f = elim (Bool-cases (t x)) [
      | inl hit ↦
          let e : x ≡ p = cc (rw hit at f) in
          ((λ _. rw e (Descends-refl p)), others xs (rw e at d.0))
      | inr miss ↦ (
        (λ same. absurd (found_other x xs d.0 (rw miss at f) (sym same))),
        only_row xs d.1 (rw miss at f),
      )
    ]

module _ (p : Payment) (db : Db) (s : IsSnapshot p db) where
  pub update-IsSnapshot :
      (t : Payment → Bool) (f : Payment → Payment)
      → ((x : Payment) → (f x).id ≡ x.id)
      → ((x : Payment) → t x ≡ true → Descends x (f x))
      → IsSnapshot p (record db { payments = update_where t f db.payments })
  update-IsSnapshot t f same d = record {
    known = s.known;
    row =
        update_where-All (λ q. q.id ≡ p.id → Descends p q) (λ q. q.id ≡ p.id → Descends p q) t f
          db.payments
          (λ x k. elim (Bool-cases (t x)) [
            | inl hit ↦ rw hit (λ e. Descends-trans p x (f x) (k (rw (same x) at e)) (d x hit))
            | inr miss ↦ rw miss k
          ])
          s.row;
  }

  -- What an operation leaves that changes neither the rows nor takes keys back.
  pub same-IsSnapshot :
      (after : Db) → after.payments ≡ db.payments → db.next_id ≤ after.next_id → IsSnapshot p after
  same-IsSnapshot after e le = record { known = omega (arith, s.known); row = rw e s.row }

  pub insert-IsSnapshot :
      (q : Payment) (after : Db)
      → q.id ≡ db.next_id
      → after.payments ≡ q ∷ db.payments
      → db.next_id ≤ after.next_id
      → IsSnapshot p after
  insert-IsSnapshot q after fresh e le = record {
    known = omega (arith, s.known);
    row = rw e ((λ same. absurd (omega (arith, s.known))), s.row);
  }
