-- ===== src/Billing/TimedTariffs.antt =====
-- The choice of a timed tariff (`resolveTimedTariff` of billing/wallet.service.ts).
use qayoda_backend.Base.{
  ℕ, ◌≡◌, true, ◌&&◌, Option, none, some, List, [], ◌∷◌, is_some, find?, All, select, sort_by, ◌==◌,
  ==_iff, Option-cases, inl, inr, All-sort, All-select, select-All, find?-All, find?-some_test,
}
use qayoda_backend.Billing.Types.{Tariff, TariffAction, action_eq}
use qayoda_backend.Billing.Store.{Db, ok}
use qayoda_backend.Billing.Pricing.{
  timed_tariffs, choose_timed, resolve_timed_tariff, duration_before,
}

-- The tariff may be bought: it is active, of the action, and has a duration.
abbrev pub IsOffered : TariffAction → Tariff → Type 0
IsOffered action t =
    ((action_eq t.action action && t.is_active) ≡ true) × (is_some t.duration_days ≡ true)

both :
    (action : TariffAction) (ts : List Tariff)
    → All (λ t. (action_eq t.action action && t.is_active) ≡ true) ts
    → All (λ t. is_some t.duration_days ≡ true) ts
    → All (IsOffered action) ts
both action [] h k = tt
both action (t ∷ ts) h k = ((h.0, k.0), both action ts h.1 k.1)

timed-IsOffered :
    (action : TariffAction) (db : Db) → All (IsOffered action) (timed_tariffs action db)
unfolding timed_tariffs
timed-IsOffered action db =
    let Q : Tariff → Type 0 = λ t. (action_eq t.action action && t.is_active) ≡ true in
    let active = select (λ (t : Tariff). action_eq t.action action && t.is_active) db.tariffs in
    let sorted = sort_by duration_before active in
    both action (select (λ (t : Tariff). is_some t.duration_days) sorted)
      (All-select Q (λ t. is_some t.duration_days) sorted
        (All-sort Q duration_before active
          (select-All (λ t. action_eq t.action action && t.is_active) db.tariffs)))
      (select-All (λ t. is_some t.duration_days) sorted)

-- Whether the chosen id is the tariff's, where there is one.
abbrev pub IsChosen : Option ℕ → Tariff → Type 0
IsChosen none t = Unit
IsChosen (some id) t = t.id ≡ id

choose_timed-offered :
    (P : Tariff → Type 0) (ts : List Tariff) (id : Option ℕ) (t : Tariff) (db db' : Db)
    → All P ts
    → choose_timed ts id db ≡ (ok t, db')
    → P t × IsChosen id t × (db' ≡ db)
unfolding choose_timed
choose_timed-offered P [] id t db db' h e = absurd (cc e)
choose_timed-offered P (s ∷ ts) (some id) t db db' h e =
    elim (Option-cases (find? (λ s. s.id == id) (s ∷ ts))) [
      | inl absent ↦ absurd (cc (rw (absent, choose_timed) at e))
      | inr (c, found) ↦
          let k = rw (found, choose_timed) at e in
          let same : c ≡ t = cc in
          (
            rw (← same) (find?-All P (λ s. s.id == id) (s ∷ ts) c h found),
            rw (← same) ((==_iff c.id id).0 (find?-some_test (λ s. s.id == id) (s ∷ ts) c found)),
            cc,
          )
    ]
choose_timed-offered P (s ∷ []) none t db db' h e =
    let same : s ≡ t = cc in (rw (← same) h.0, tt, cc)
choose_timed-offered P (s ∷ r ∷ ts) none t db db' h e = absurd (cc e)

-- A timed tariff that is resolved is active, of this action and has a duration, and where an id was
-- sent it is the one of that id; nothing is written.
pub resolve_timed_tariff-IsOffered :
    (action : TariffAction) (id : Option ℕ) (t : Tariff) (db db' : Db)
    → resolve_timed_tariff action id db ≡ (ok t, db')
    → IsOffered action t × IsChosen id t × (db' ≡ db)
unfolding resolve_timed_tariff
resolve_timed_tariff-IsOffered action id t db db' e =
    choose_timed-offered (IsOffered action) (timed_tariffs action db) id t db db'
      (timed-IsOffered action db) e
