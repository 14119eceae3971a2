-- ===== src/Billing/Admin.antt =====
-- BillingAdminService (billing/billing-admin.service.ts): what an admin changes by hand.
-- Names of tariffs and notes are left out, and the actions are those of TARIFF_ACTIONS.
use qayoda_backend.Base.{
  ℕ, zero, suc, ◌+◌, Bool, true, false, not, ◌&&◌, Option, none, some, List, [], ◌∷◌, ◌==◌,
  if◌then◌else◌, is_some, is_id, or_default, find?, any, select, update_where, sort_by, length,
  take, drop, ℤ, pos, negsuc, pos_part, neg_part, leb, ltb,
}
use qayoda_backend.Billing.Types.{
  TariffAction, action_eq, is_timed_action, is_first_free_action, TxKind, kind_eq, Tariff,
  BonusTier, WalletTransaction, FreeGrant,
}
use qayoda_backend.Billing.Store.{
  Db, Result, Action, ok, err, ◌>>=◌, ◌>>◌, pure, raise, gets, or_raise, raise_if, modify,
  transaction, fresh_id, unique_violation, user_not_found, tariff_not_found, tariff_exists,
  duration_required, tariff_has_no_duration, tier_exists, tier_not_found, action_not_free_eligible,
  free_grant_not_used,
}
use qayoda_backend.Billing.Wallet.{TxAudit, find_user, credit, debit}

-- `durationFor`: every action of the model is a built-in one.
unfoldable pub duration_for : TariffAction → Option ℕ → Action (Option ℕ)
duration_for action duration_days = do
  raise_if (is_timed_action action && not (is_some duration_days)) duration_required
  raise_if (not (is_timed_action action) && is_some duration_days) tariff_has_no_duration
  pure duration_days

abbrev pub same_duration : Option ℕ → Option ℕ → Bool
same_duration none none = true
same_duration none (some e) = false
same_duration (some d) none = false
same_duration (some d) (some e) = d == e

-- Another tariff than the excepted one has this action and duration.
abbrev pub tariff_taken : TariffAction → Option ℕ → Option ℕ → Tariff → Bool
tariff_taken action duration_days except t =
    action_eq t.action action
    && same_duration t.duration_days duration_days
    && not (is_id t.id except)

unfoldable pub assert_tariff_free : TariffAction → Option ℕ → Option ℕ → Action (Unit {0})
assert_tariff_free action duration_days except = do
  clash ← gets (λ db. any (tariff_taken action duration_days except) db.tariffs)
  raise_if clash tariff_exists

unfoldable pub create_tariff : TariffAction → ℕ → Option ℕ → Option Bool → Action Tariff
create_tariff action price duration_days is_active = do
  d ← duration_for action duration_days
  assert_tariff_free action d none
  id ← fresh_id
  let t : Tariff = record {
    id = id;
    action = action;
    price = price;
    duration_days = d;
    is_active = or_default is_active true;
  }
  modify λ db. record db { tariffs = t ∷ db.tariffs }
  pure t

-- The duration that a patch gives, checked only where it changes.
unfoldable pub patched_duration : Tariff → Option ℕ → Action (Option ℕ)
patched_duration t none = pure t.duration_days
patched_duration t (some d) =
    if same_duration (some d) t.duration_days then pure t.duration_days else (do
      new ← duration_for t.action (some d)
      assert_tariff_free t.action new (some t.id)
      pure new)

unfoldable pub patch_tariff : ℕ → Option ℕ → Option ℕ → Option Bool → Action Tariff
patch_tariff id price duration_days is_active = do
  t ← or_raise (← gets (λ db. find? (λ t. t.id == id) db.tariffs)) tariff_not_found
  d ← patched_duration t duration_days
  let new = record t {
    price = or_default price t.price;
    is_active = or_default is_active t.is_active;
    duration_days = d;
  }
  modify λ db. record db { tariffs = update_where (λ s. s.id == id) (λ _. new) db.tariffs }
  pure new

unfoldable pub delete_tariff : ℕ → Action (Unit {0})
delete_tariff id = do
  found ← gets (λ db. any (λ t. t.id == id) db.tariffs)
  raise_if (not found) tariff_not_found
  modify λ db. record db { tariffs = select (λ t. not (t.id == id)) db.tariffs }

-- Another tier than the excepted one has this minimum.
abbrev pub tier_taken : ℕ → Option ℕ → BonusTier → Bool
tier_taken min_amount except t = t.min_amount == min_amount && not (is_id t.id except)

unfoldable pub create_bonus_tier : ℕ → ℕ → Action BonusTier
create_bonus_tier min_amount percent = do
  clash ← gets (λ db. any (tier_taken min_amount none) db.bonus_tiers)
  raise_if clash tier_exists
  id ← fresh_id
  let t : BonusTier = record {
    id = id;
    min_amount = min_amount;
    percent = percent;
    is_active = true;
  }
  modify λ db. record db { bonus_tiers = t ∷ db.bonus_tiers }
  pure t

unfoldable pub patch_bonus_tier : ℕ → Option ℕ → Option ℕ → Option Bool → Action BonusTier
patch_bonus_tier id min_amount percent is_active = do
  t ← or_raise (← gets (λ db. find? (λ t. t.id == id) db.bonus_tiers)) tier_not_found
  clash ← gets (λ db. any (tier_taken (or_default min_amount 0) (some id)) db.bonus_tiers)
  raise_if (is_some min_amount && clash) tier_exists
  let new = record t {
    min_amount = or_default min_amount t.min_amount;
    percent = or_default percent t.percent;
    is_active = or_default is_active t.is_active;
  }
  modify λ db. record db { bonus_tiers = update_where (λ s. s.id == id) (λ _. new) db.bonus_tiers }
  pure new

unfoldable pub delete_bonus_tier : ℕ → Action (Unit {0})
delete_bonus_tier id = do
  found ← gets (λ db. any (λ t. t.id == id) db.bonus_tiers)
  raise_if (not found) tier_not_found
  modify λ db. record db { bonus_tiers = select (λ t. not (t.id == id)) db.bonus_tiers }

pub record Adjusted : Type 0 where
  pub balance : ℕ
  pub repeated : Bool

-- The user's row of the ledger under a client's key.
abbrev pub under_key : ℕ → ℕ → WalletTransaction → Bool
under_key user client t = t.user_id == user && is_id client t.client_id

abbrev pub done_before : ℕ → Option ℕ → Db → Option WalletTransaction
done_before user none db = none
done_before user (some client) db = find? (under_key user client) db.transactions

-- A credit of a number above 0, or a debit of what is below it.
unfoldable pub adjust_by : ℕ → ℤ → TxAudit → Action ℕ
adjust_by user (pos (suc n)) audit = credit user (pos (suc n)) TxKind.admin_adjust none audit
adjust_by user (pos zero) audit = debit user (pos 0) TxKind.admin_adjust none audit
adjust_by user (negsuc n) audit = debit user (pos (suc n)) TxKind.admin_adjust none audit

unfoldable pub run_adjust : ℕ → ℕ → ℤ → Option ℕ → Action Adjusted
run_adjust admin user amount client = transaction (do
  found ← gets (find_user user)
  done ← gets (done_before user client)
  if not (is_some found) then raise user_not_found else elim done [
    | some t ↦ pure (record { balance = t.balance_after; repeated = true })
    | none ↦ (do
      b ← adjust_by user amount (record { client_id = client; admin_id = some admin })
      pure (record { balance = b; repeated = false }))
  ])

-- The `catch` of `adjustWallet`: the key's index refused the row, so the first one's answer is given.
abbrev pub or_first : ℕ → Option ℕ → Result Adjusted × Db → Result Adjusted × Db
or_first user client (err unique_violation, db) = elim (done_before user client db) [
  | none ↦ (err unique_violation, db)
  | some t ↦ (ok (record { balance = t.balance_after; repeated = true }), db)
]
or_first user client (r, db) = (r, db)

unfoldable pub adjust_wallet : ℕ → ℕ → ℤ → Option ℕ → Action Adjusted
adjust_wallet admin user amount client db =
    or_first user client (run_adjust admin user amount client db)

abbrev pub grant_of : ℕ → TariffAction → FreeGrant → Bool
grant_of user action g = g.user_id == user && action_eq g.action action

unfoldable pub reset_free_grant : ℕ → TariffAction → Action (Unit {0})
reset_free_grant user action = do
  raise_if (not (is_first_free_action action)) action_not_free_eligible
  used ← gets (λ db. any (grant_of user action) db.free_grants)
  raise_if (not used) free_grant_not_used
  modify λ db. record db { free_grants = select (λ g. not (grant_of user action g)) db.free_grants }

pub record Adjustments : Type 0 where
  pub items : List WalletTransaction
  pub total : ℕ
  pub credited : ℕ
  pub debited : ℕ

-- The filters of the history: a user, an admin, and a credit or a debit.
abbrev pub is_listed : Option ℕ → Option ℕ → Option Bool → WalletTransaction → Bool
is_listed user admin is_credit t =
    kind_eq t.kind TxKind.admin_adjust
    && elim user [ none ↦ true | some u ↦ t.user_id == u ]
    && elim admin [ none ↦ true | some a ↦ is_id a t.admin_id ]
    && elim is_credit [
      | none ↦ true
      | some true ↦ ltb 0 (pos_part t.amount)
      | some false ↦ ltb 0 (neg_part t.amount)
    ]

abbrev pub sum_by : (WalletTransaction → ℕ) → List WalletTransaction → ℕ
sum_by f [] = 0
sum_by f (t ∷ ts) = f t + sum_by f ts

unfoldable pub list_adjustments :
    Option ℕ → Option ℕ → Option Bool → (limit offset : ℕ) → Db → Adjustments
list_adjustments user admin is_credit limit offset db =
    let rows = select (is_listed user admin is_credit) db.transactions in
    record {
      items = take limit (drop offset (sort_by (λ s t. leb t.created_at s.created_at) rows));
      total = length rows;
      credited = sum_by (λ t. pos_part t.amount) rows;
      debited = sum_by (λ t. neg_part t.amount) rows;
    }
