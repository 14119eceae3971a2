-- ===== src/Billing/Repeated/FreeActions.antt =====
-- The first action that is free (`chargeTariff` of billing/wallet.service.ts).
use qayoda_backend.Base.{
  ℕ, ◌≡◌, refl, ◌∙◌, Bool, true, false, not, ◌||◌, ◌&&◌, ◌==◌, Option, any, arith, pos,
  if◌then◌else◌, Bool-cases, inl, inr, ◌∷◌,
}
use qayoda_backend.Billing.Types.{Tariff, TariffAction, kind_of, action_eq, is_first_free_action}
use qayoda_backend.Billing.Store.{Db, ok, pure, ◌>>◌}
use qayoda_backend.Billing.Wallet.{find_user, debit, no_audit}
use qayoda_backend.Billing.Pricing.{charge_tariff, is_admin}

-- The user has had the action for free.
abbrev pub has_used : ℕ → TariffAction → Db → Bool
has_used u action db = any (λ g. g.user_id == u && action_eq g.action action) db.free_grants

abbrev pub waived : ℕ → Tariff → Db → Bool
waived u tariff db = is_admin (find_user u db) || tariff.price == 0

-- The state with the free action marked as used.
abbrev pub granted : ℕ → TariffAction → Option ℕ → Db → Db
granted u action ref db = record db {
  free_grants =
      record { user_id = u; action = action; reference_id = ref; used_at = db.now }
      ∷ db.free_grants;
}

module _ (u : ℕ) (tariff : Tariff) (ref : Option ℕ) (db : Db) where
  -- An admin and a price of 0 pay nothing; a user's first action of a free kind is marked as used
  -- and costs nothing; any other is debited at the tariff's price.
  pub charge_tariff_lem : charge_tariff u tariff ref db ≡ (
      if waived u tariff db
      then (ok tt, db)
      else if is_first_free_action tariff.action && not (has_used u tariff.action db)
      then (ok tt, granted u tariff.action ref db)
      else (debit u (pos tariff.price) (kind_of tariff.action) ref no_audit >> pure tt) db)
  unfolding charge_tariff
  charge_tariff_lem = elim (Bool-cases (waived u tariff db)) [
    | inl free ↦ rw free refl
    | inr priced ↦ elim (Bool-cases (is_first_free_action tariff.action)) [
      | inr never ↦ rw (priced, never) refl
      | inl first ↦ elim (Bool-cases (has_used u tariff.action db)) [
        | inl spent ↦ rw (priced, first, spent) refl
        | inr unspent ↦ rw (priced, first, unspent) refl
      ]
    ]
  ]

used :
    (u : ℕ) (a b : TariffAction) (ref : Option ℕ) (db : Db)
    → a ≡ b
    → has_used u a (granted u b ref db) ≡ true
used u a b ref db e = ground arith

granted-waived :
    (u v : ℕ) (a : TariffAction) (ref : Option ℕ) (tariff : Tariff) (db : Db)
    → waived u tariff (granted v a ref db) ≡ waived u tariff db
unfolding find_user
granted-waived u v a ref tariff db = refl

-- A user who is no admin, on a priced tariff of a kind whose first action is free, and who has not
-- had that one: the first charge succeeds and moves no money, and the next charge of the same kind
-- at any price but 0 is the debit of its price.
pub charge_tariff-once :
    (u : ℕ) (tariff next : Tariff) (ref later : Option ℕ) (db : Db)
    → is_first_free_action tariff.action ≡ true
    → has_used u tariff.action db ≡ false
    → waived u tariff db ≡ false
    → next.action ≡ tariff.action
    → waived u next db ≡ false
    → ((charge_tariff u tariff ref db).0 ≡ ok tt)
      × ((charge_tariff u tariff ref db).1.wallets ≡ db.wallets)
      × ((charge_tariff u tariff ref db).1.transactions ≡ db.transactions)
      × (charge_tariff u next later (charge_tariff u tariff ref db).1
          ≡ (debit u (pos next.price) (kind_of next.action) later no_audit >> pure tt)
              (charge_tariff u tariff ref db).1)
charge_tariff-once u tariff next ref later db first unused priced same charged =
    let free : charge_tariff u tariff ref db ≡ (ok tt, granted u tariff.action ref db) =
      rw (charge_tariff_lem u tariff ref db, priced, first, unused) refl in
    let t : Db = granted u tariff.action ref db in
    let spent = used u next.action tariff.action ref db same in
    let cost : waived u next t ≡ false = granted-waived u u tariff.action ref next db ∙ charged in
    let kind : is_first_free_action next.action ≡ true = rw same first in
    rw free (refl, refl, refl, rw (charge_tariff_lem u next later t, cost, kind, spent) refl)
