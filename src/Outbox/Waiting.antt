-- ===== src/Outbox/Waiting.antt =====
-- The rows that wait, and what the marks and the pruning of others do to them
-- (shared/events/outbox-relay.service.ts).
use qayoda_backend.Base.{
  ℕ, ◌<◌, ◌≡◌, refl, Bool, true, false, not, Option, none, some, List, [], ◌∷◌, ◌&&◌, ◌==◌, arith,
  any, select, sort_by, insert_by, update_where, count_if, count_if-update_where, All, All-map,
  All-sort, Bool-cases, inl, inr, ◌⊎◌, map,
}
use qayoda_backend.Outbox.Relay.{
  OutboxEvent, Outbox, is_waiting, is_older, dispatched, is_stale, prune,
}

abbrev pub waiting : {P W : Type 0} → Outbox P W → ℕ
waiting s = count_if is_waiting s.events

module _ {P : Type 0} where
  -- The row is in the table and waits.
  abbrev pub is_there : List (OutboxEvent P) → OutboxEvent P → Bool
  is_there rows e = any (λ r. r.id == e.id && is_waiting r) rows

  All-select_cons :
      (Q : OutboxEvent P → Type 0) (t : OutboxEvent P → Bool) (r : OutboxEvent P)
      (rows : List (OutboxEvent P))
      → (t r ≡ true → Q r)
      → All Q (select t rows)
      → All Q (select t (r ∷ rows))
  All-select_cons Q t r rows q h = elim (Bool-cases (t r)) [
    | inl hit ↦ rw hit (q hit, h)
    | inr miss ↦ rw miss h
  ]

  pub select-there :
      (rows : List (OutboxEvent P)) → All (λ e. is_there rows e ≡ true) (select is_waiting rows)
  select-there [] = tt
  select-there (r ∷ rows) =
      All-select_cons (λ e. is_there (r ∷ rows) e ≡ true) is_waiting r rows
        (λ waits. ground (arith, waits))
        (All-map (λ e. is_there rows e ≡ true) (λ e. is_there (r ∷ rows) e ≡ true)
          (select is_waiting rows) (λ e h. ground (arith, h)) (select-there rows))

  -- The update of a row that waits takes it out of those that wait.
  pub dispatched-fewer :
      (now id : ℕ) (rows : List (OutboxEvent P))
      → any (λ r. r.id == id && is_waiting r) rows ≡ true
      → count_if is_waiting (update_where (λ r. r.id == id) (dispatched now) rows)
        < count_if is_waiting rows
  dispatched-fewer now id [] h = absurd (cc h)
  dispatched-fewer now id (r ∷ rows) h =
      let rest =
        count_if-update_where is_waiting (λ r. r.id == id) (dispatched now) rows
          (λ x own waits. absurd (cc waits)) in
      elim (Bool-cases (r.id == id)) [
        | inl own ↦ elim (Bool-cases (is_waiting r)) [
          | inl waits ↦ rw (own, waits) (ground (arith, rest))
          | inr gone ↦
              let more = dispatched-fewer now id rows (rw (own, gone) at h) in
              rw (own, gone) (ground (arith, more))
        ]
        | inr other ↦
            let more = dispatched-fewer now id rows (rw other at h) in
            rw other (ground (arith, more))
      ]

  -- The batch is empty only when nothing waits.
  insert-cons :
      (a : OutboxEvent P) (xs : List (OutboxEvent P))
      → (b : OutboxEvent P) × (bs : List (OutboxEvent P)) × (insert_by is_older a xs ≡ b ∷ bs)
  insert-cons a [] = (a, [], refl)
  insert-cons a (x ∷ xs) = elim (Bool-cases (is_older a x)) [
    | inl first ↦ (a, x ∷ xs, rw first refl)
    | inr later ↦ (x, insert_by is_older a xs, rw later refl)
  ]

  -- The oldest of the waiting events is one that waits.
  pub oldest :
      (rows xs : List (OutboxEvent P))
      → All (λ e. is_there rows e ≡ true) xs
      → (xs ≡ [])
        ⊎ ((b : OutboxEvent P) × (bs : List (OutboxEvent P)) × (sort_by is_older xs ≡ b ∷ bs)
            × (is_there rows b ≡ true))
  oldest rows [] h = inl refl
  oldest rows (x ∷ xs) h =
      let top = insert-cons x (sort_by is_older xs) in
      let sorted : All (λ e. is_there rows e ≡ true) (top.0 ∷ top.1) =
        rw top.2 at (All-sort (λ e. is_there rows e ≡ true) is_older (x ∷ xs) h) in
      inr (top.0, top.1, top.2, sorted.0)

  pub select-nothing :
      (rows : List (OutboxEvent P)) → select is_waiting rows ≡ [] → count_if is_waiting rows ≡ 0
  select-nothing [] h = refl
  select-nothing (r ∷ rows) h = elim (Bool-cases (is_waiting r)) [
    | inl waits ↦ absurd (cc (rw waits at h))
    | inr gone ↦ ground (arith, select-nothing rows (rw gone at h))
  ]

  pub ids-kept :
      (now id : ℕ) (rows : List (OutboxEvent P))
      → map (λ r. r.id) (update_where (λ r. r.id == id) (dispatched now) rows)
        ≡ map (λ r. r.id) rows
  ids-kept now id [] = refl
  ids-kept now id (r ∷ rows) = elim (Bool-cases (r.id == id)) [
    | inl own ↦ rw own (λ i. r.id ∷ ids-kept now id rows i)
    | inr other ↦ rw other (λ i. r.id ∷ ids-kept now id rows i)
  ]

-- Pruning takes no event that waits.
stale-waits :
    {P : Type 0} (now : ℕ) (e : OutboxEvent P) (at : Option ℕ)
    → e.dispatched_at ≡ at
    → is_waiting e ≡ true
    → is_stale now e ≡ false
stale-waits now e none h w = rw h refl
stale-waits now e (some at) h w = absurd (cc (rw h at w))

kept_rows :
    {P : Type 0} (now : ℕ) (rows : List (OutboxEvent P))
    → count_if is_waiting (select (λ e. not (is_stale now e)) rows) ≡ count_if is_waiting rows
kept_rows now [] = refl
kept_rows now (r ∷ rows) = elim (Bool-cases (is_waiting r)) [
  | inl waits ↦
      rw (stale-waits now r r.dispatched_at refl waits) (ground (arith, kept_rows now rows))
  | inr gone ↦ elim (Bool-cases (is_stale now r)) [
    | inl old ↦ rw old (ground (arith, kept_rows now rows))
    | inr recent ↦ rw recent (ground (arith, kept_rows now rows))
  ]
]

pub prune-waiting : {P W : Type 0} (s : Outbox P W) → waiting (prune s) ≡ waiting s
unfolding prune
prune-waiting s = kept_rows s.now s.events
