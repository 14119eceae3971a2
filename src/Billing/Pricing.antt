-- ===== src/Billing/Pricing.antt =====
-- WalletService (billing/wallet.service.ts): prices, free actions, timed tariffs and bonuses.
use qayoda_backend.Base.{
  ℕ, ◌*◌, ◌/◌, Bool, true, false, not, ◌&&◌, ◌||◌, Option, none, some, List, [], ◌∷◌, leb, ◌==◌,
  if◌then◌else◌, is_some, find?, any, select, sort_by, pos,
}
use qayoda_backend.Billing.Types.{
  TariffAction, listing_post, kind_of, action_eq, is_first_free_action, Tariff, BonusTier, User,
  UserRole,
}
use qayoda_backend.Billing.Store.{
  Db, Action, ok, ◌>>=◌, ◌>>◌, pure, raise, gets, or_raise, tariff_unavailable, tariff_not_found,
  tariff_required,
}
use qayoda_backend.Billing.Wallet.{find_user, debit, no_audit}

-- `INSERT INTO free_grants … ON CONFLICT (user_id, action) DO NOTHING RETURNING user_id`
unfoldable pub claim_free_action : ℕ → TariffAction → Option ℕ → Action Bool
claim_free_action u action ref db =
    if any (λ g. g.user_id == u && action_eq g.action action) db.free_grants
    then (ok false, db)
    else (
      ok true,
      record db {
        free_grants =
            record { user_id = u; action = action; reference_id = ref; used_at = db.now }
            ∷ db.free_grants;
      },
    )

unfoldable pub free_actions_for : ℕ → Action (List TariffAction)
free_actions_for u = gets λ db.
    select (λ a. not (any (λ g. g.user_id == u && action_eq g.action a) db.free_grants))
      (listing_post ∷ [])

abbrev pub is_admin : Option User → Bool
is_admin none = false
is_admin (some u) = elim u.role [ UserRole.admin ↦ true | UserRole.user ↦ false ]

unfoldable pub charge_tariff : ℕ → Tariff → Option ℕ → Action (Unit {0})
unfolding claim_free_action
charge_tariff u tariff ref = do
  user ← gets (find_user u)
  if is_admin user || tariff.price == 0 then pure tt else (do
    free ←
        if is_first_free_action tariff.action
        then claim_free_action u tariff.action ref
        else pure false
    if free
        then pure tt
        else debit u (pos tariff.price) (kind_of tariff.action) ref no_audit >> pure tt)

unfoldable pub charge : ℕ → TariffAction → Option ℕ → Action (Unit {0})
charge u action ref = do
  tariff ← gets (λ db. find? (λ t. action_eq t.action action && t.is_active) db.tariffs)
  elim tariff [ none ↦ pure tt | some t ↦ charge_tariff u t ref ]

-- Ascending, with NULL last.
abbrev pub duration_before : Tariff → Tariff → Bool
duration_before s t = elim s.duration_days [
  | none ↦ not (is_some t.duration_days)
  | some d ↦ elim t.duration_days [ none ↦ true | some e ↦ leb d e ]
]

-- The active tariffs of an action that have a duration, the shortest first.
unfoldable pub timed_tariffs : TariffAction → Db → List Tariff
timed_tariffs action db =
    select (λ t. is_some t.duration_days)
      (sort_by duration_before (select (λ t. action_eq t.action action && t.is_active) db.tariffs))

-- The choice among the timed tariffs: by id, or the only one.
unfoldable pub choose_timed : List Tariff → Option ℕ → Action Tariff
choose_timed [] id = raise tariff_unavailable
choose_timed (t ∷ ts) (some id) = or_raise (find? (λ s. s.id == id) (t ∷ ts)) tariff_not_found
choose_timed (t ∷ []) none = pure t
choose_timed (t ∷ s ∷ ts) none = raise tariff_required

unfoldable pub resolve_timed_tariff : TariffAction → Option ℕ → Action Tariff
unfolding timed_tariffs choose_timed
resolve_timed_tariff action id = do choose_timed (← gets (timed_tariffs action)) id

abbrev pub tier_before : BonusTier → BonusTier → Bool
tier_before s t = leb t.min_amount s.min_amount

pub record Bonus : Type 0 where
  pub percent : ℕ
  pub bonus_tiyin : ℕ

-- The first of the active tiers, the highest minimum first, that the amount reaches.
unfoldable pub bonus_tier_for : ℕ → Db → Option BonusTier
bonus_tier_for amount db =
    find? (λ t. leb t.min_amount amount)
      (sort_by tier_before (select (λ t. t.is_active) db.bonus_tiers))

unfoldable pub bonus_for : ℕ → Db → Bonus
unfolding bonus_tier_for
bonus_for amount db = elim (bonus_tier_for amount db) [
  | none ↦ record { percent = 0; bonus_tiyin = 0 }
  | some t ↦ record { percent = t.percent; bonus_tiyin = (amount * t.percent) / 100 }
]
