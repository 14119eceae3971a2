-- ===== src/Billing/Settlement/Snapshot.antt =====
-- How a row of payments may change between the time a caller of payments.service.ts reads it and
-- the time its transition writes it.
use qayoda_backend.Base.{ℕ, ◌<◌, ◌≤◌, ◌≡◌, All, arith}
use qayoda_backend.Billing.Types.{Payment, PaymentStatus, created, prepared, paid, cancelled}
use qayoda_backend.Billing.Store.{Db}

-- The order in which a payment passes through its statuses.
abbrev pub rank : PaymentStatus → ℕ
rank created = 0
rank prepared = 1
rank paid = 2
rank cancelled = 3

-- `q` is what the row `p` may have become.
pub record Descends (p q : Payment) : Type 0 where
  pub same_user : q.user_id ≡ p.user_id
  pub same_amount : q.amount ≡ p.amount
  pub same_provider : q.provider ≡ p.provider
  pub same_prepare_id : q.prepare_id ≡ p.prepare_id
  pub onwards : rank p.status ≤ rank q.status
  pub final_bonus : 2 ≤ rank p.status → q.bonus_amount ≡ p.bonus_amount
  pub final_time : 2 ≤ rank p.status → q.provider_perform_time ≡ p.provider_perform_time

-- The payment was read from this table, now or earlier.
pub record IsSnapshot (p : Payment) (db : Db) : Type 0 where
  pub known : p.id < db.next_id
  pub row : All (λ q. q.id ≡ p.id → Descends p q) db.payments

pub Descends-refl : (p : Payment) → Descends p p
Descends-refl p = ground arith

pub Descends-trans : (p q r : Payment) → Descends p q → Descends q r → Descends p r
Descends-trans p q r h k = ground arith
