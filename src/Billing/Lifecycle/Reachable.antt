-- ===== src/Billing/Lifecycle/Reachable.antt =====
-- What holds of payments after any interleaving of the services (billing/payments.service.ts).
use qayoda_backend.Base.{
  find?-All, ℕ, ◌≡◌, refl, Bool, none, some, List, [], arith, find?, ◌==◌, ==_iff, find?-some_test,
}
use qayoda_backend.Billing.Types.{Payment, User, Tariff, BonusTier}
use qayoda_backend.Billing.Store.{Db}
use qayoda_backend.Billing.Payments.{find_by_id}
use qayoda_backend.Billing.Wallet.Balanced.{IsBalanced}
use qayoda_backend.Billing.Settlement.Invariant.{IsSound, IsSettled}
use qayoda_backend.Billing.Settlement.Snapshot.{Descends, IsSnapshot}
use qayoda_backend.Billing.Lifecycle.Kept.{read-IsSnapshot}
use qayoda_backend.Billing.Lifecycle.Steps.{Reach, here, next, Step-IsSound, Step-IsSnapshot}

-- The database before the first payment: no wallets, no ledger.
abbrev pub empty_db : ℕ → List User → List Tariff → List BonusTier → Db
empty_db now users tariffs tiers = record {
  now = now;
  next_id = 0;
  next_prepare = 1;
  users = users;
  wallets = λ _. none;
  transactions = [];
  free_grants = [];
  tariffs = tariffs;
  bonus_tiers = tiers;
  payments = [];
  outbox = [];
  webhook_events = [];
}

pub empty_db-IsSound :
    (now : ℕ) (users : List User) (tariffs : List Tariff) (tiers : List BonusTier)
    → IsSound (empty_db now users tariffs tiers)
empty_db-IsSound now users tariffs tiers = record {
  balanced = record { accounted = λ u. omega arith; bounded = λ u. omega arith };
  below = tt;
  distinct = tt;
  settled = tt;
  fresh = λ id le. (refl, refl, refl);
}

pub Reach-IsSound : {s t : Db} → Reach s t → IsSound s → IsSound t
Reach-IsSound here h = h
Reach-IsSound (next r st) h = Step-IsSound st (Reach-IsSound r h)

pub Reach-IsSnapshot : {s t : Db} (p : Payment) → Reach s t → IsSnapshot p s → IsSnapshot p t
Reach-IsSnapshot p here k = k
Reach-IsSnapshot p (next r st) k = Step-IsSnapshot p st (Reach-IsSnapshot p r k)

-- From an empty database, after any steps: every payment's top-up and bonus stand in the ledger
-- once if it was performed and not at all if it was not, and their reversal once if it was
-- cancelled after that.
pub Reach-IsSettled :
    (now : ℕ) (users : List User) (tariffs : List Tariff) (tiers : List BonusTier) {db : Db}
    (id : ℕ) (p : Payment)
    → Reach (empty_db now users tariffs tiers) db
    → find_by_id id db ≡ some p
    → IsSettled db.transactions p
unfolding find_by_id
Reach-IsSettled now users tariffs tiers {db} id p r e =
    find?-All (IsSettled db.transactions) _ db.payments p
      (Reach-IsSound r (empty_db-IsSound now users tariffs tiers)).settled e

-- From an empty database, after any steps: every user's balance is the sum of what the ledger
-- credits less what it debits, and fits its column.
pub Reach-IsBalanced :
    (now : ℕ) (users : List User) (tariffs : List Tariff) (tiers : List BonusTier) {db : Db}
    → Reach (empty_db now users tariffs tiers) db
    → IsBalanced db
Reach-IsBalanced now users tariffs tiers r =
    (Reach-IsSound r (empty_db-IsSound now users tariffs tiers)).balanced

-- A payment that was read in a sound state and is read again after any steps has the same user,
-- amount, provider and prepare id, has gone on in the order created, prepared, paid, cancelled or
-- stayed, and if it was paid or cancelled keeps its bonus and its time of performance.
pub Reach-Descends :
    {s t : Db} (test : Payment → Bool) (p q : Payment)
    → IsSound s
    → find? test s.payments ≡ some p
    → Reach s t
    → find_by_id p.id t ≡ some q
    → Descends p q
unfolding find_by_id
Reach-Descends {t} test p q h e r f =
    let k = Reach-IsSnapshot p r (read-IsSnapshot test _ p h e) in
    find?-All (λ x. x.id ≡ p.id → Descends p x) (λ x. x.id == p.id) t.payments q k.row f
      ((==_iff q.id p.id).0 (find?-some_test _ t.payments q f))
