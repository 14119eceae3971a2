-- ===== src/Billing/Manual/Shapes.antt =====
-- Tariffs and free actions that an admin changes (`createTariff`, `resetFreeGrant` of
-- billing/billing-admin.service.ts).
use qayoda_backend.Base.{
  ℕ, ◌≡◌, refl, ap, sym, Bool, true, false, not, Option, none, List, [], ◌∷◌, any, select, is_some,
  All, Bool-cases, inl, inr,
}
use qayoda_backend.Billing.Types.{
  Tariff, TariffAction, FreeGrant, is_timed_action, is_first_free_action,
}
use qayoda_backend.Billing.Store.{Db, Result, ok}
use qayoda_backend.Billing.Admin.{
  create_tariff, duration_for, assert_tariff_free, tariff_taken, reset_free_grant, grant_of,
}
use qayoda_backend.Billing.Repeated.FreeActions.{has_used}

none_left :
    (t : FreeGrant → Bool) (xs : List FreeGrant) → any t (select (λ g. not (t g)) xs) ≡ false
none_left t [] = refl
none_left t (x ∷ xs) = elim (Bool-cases (t x)) [
  | inl hit ↦ rw hit (none_left t xs)
  | inr miss ↦ rw (miss, miss) (none_left t xs)
]

-- An admin's reset of a free action succeeds only on a free action that the user has used, and
-- after it the user has not.
pub reset_free_grant-unused :
    (user : ℕ) (action : TariffAction) (db db' : Db)
    → reset_free_grant user action db ≡ (ok tt, db')
    → (is_first_free_action action ≡ true)
      × (has_used user action db ≡ true)
      × (has_used user action db' ≡ false)
unfolding reset_free_grant
reset_free_grant-unused user action db db' h = elim (Bool-cases (is_first_free_action action)) [
  | inr never ↦ absurd (cc (rw (never, reset_free_grant) at h))
  | inl first ↦ elim (Bool-cases (has_used user action db)) [
    | inr unused ↦ absurd (cc (rw (first, unused, reset_free_grant) at h))
    | inl used ↦
        let rows : db'.free_grants ≡ select (λ g. not (grant_of user action g)) db.free_grants =
          ap (λ (r : Result (Unit {0}) × Db). r.1.free_grants)
            (sym (rw (first, used, reset_free_grant) at h)) in
        (first, used, rw rows (none_left (grant_of user action) db.free_grants))
  ]
]

-- Of each action there is at most one tariff of each duration, or without one.
abbrev pub HasDistinctShapes : List Tariff → Type 0
HasDistinctShapes [] = Unit
HasDistinctShapes (t ∷ ts) =
    (any (tariff_taken t.action t.duration_days none) ts ≡ false) × HasDistinctShapes ts

-- An action that lasts has a duration, and no other has.
abbrev pub HasShape : Tariff → Type 0
HasShape t = is_some t.duration_days ≡ is_timed_action t.action

-- Where each action has at most one tariff of each duration, and every tariff the shape of its
-- action, this is still so after `createTariff`, whether it makes the tariff or refuses it.
pub create_tariff-HasDistinctShapes :
    (action : TariffAction) (price : ℕ) (duration_days : Option ℕ) (is_active : Option Bool)
    (db : Db)
    → HasDistinctShapes db.tariffs
    → All HasShape db.tariffs
    → HasDistinctShapes (create_tariff action price duration_days is_active db).1.tariffs
      × All HasShape (create_tariff action price duration_days is_active db).1.tariffs
unfolding create_tariff duration_for assert_tariff_free
create_tariff-HasDistinctShapes action price duration_days is_active db h k =
    elim (Bool-cases (is_timed_action action)) [
      | inl timed ↦ elim (Bool-cases (is_some duration_days)) [
        | inr without ↦ rw (timed, without) (h, k)
        | inl lasting ↦
            elim (Bool-cases (any (tariff_taken action duration_days none) db.tariffs)) [
              | inl taken ↦ rw (timed, lasting, taken) (h, k)
              | inr free ↦ rw (timed, lasting, free) ((free, h), (cc, k))
            ]
      ]
      | inr untimed ↦ elim (Bool-cases (is_some duration_days)) [
        | inl lasting ↦ rw (untimed, lasting) (h, k)
        | inr without ↦
            elim (Bool-cases (any (tariff_taken action duration_days none) db.tariffs)) [
              | inl taken ↦ rw (untimed, without, taken) (h, k)
              | inr free ↦ rw (untimed, without, free) ((free, h), (cc, k))
            ]
      ]
    ]
