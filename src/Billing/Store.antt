-- ===== src/Billing/Store.antt =====
-- The state that billing reads and writes: the tables of the database, the outbox, the clock and
-- the sequences. A method is an action on it. What was written before a raise stays written,
-- except in a transaction, which is rolled back.
use qayoda_backend.Base.{
  ◌≡◌, refl, ◌⊎◌, inl, inr, ℕ, ◌+◌, Bool, Option, none, some, List, ◌∷◌, if◌then◌else◌, ◌==◌,
}
use qayoda_backend.Billing.Types.{
  User, WalletTransaction, FreeGrant, Tariff, BonusTier, Payment, BillingEvent, PaymentWebhookEvent,
}

pub record Db : Type 0 where
  pub now : ℕ
  pub next_id : ℕ
  pub next_prepare : ℕ
  pub users : List User
  pub wallets : ℕ → Option ℕ
  pub transactions : List WalletTransaction
  pub free_grants : List FreeGrant
  pub tariffs : List Tariff
  pub bonus_tiers : List BonusTier
  pub payments : List Payment
  pub outbox : List BillingEvent
  pub webhook_events : List PaymentWebhookEvent

-- What the services raise. `unique_violation` is the database's error, `no_row` the error of
-- `findOneOrFail` and of reading the first of no rows.
pub data Failure : Type 0 where
  invalid_amount insufficient_funds balance_limit : Failure
  tariff_unavailable tariff_not_found tariff_required : Failure
  provider_unavailable client_id_reused payment_not_found transaction_not_found : Failure
  provider_mismatch reversal_not_possible : Failure
  user_not_found tariff_exists duration_required tariff_has_no_duration : Failure
  tier_exists tier_not_found action_not_free_eligible free_grant_not_used : Failure
  unique_violation no_row : Failure

pub data Result {ℓ} (A : Type ℓ) : Type ℓ where
  ok : A → Result A
  err : Failure → Result A

abbrev pub Action : Type 0 → Type 0
Action A = Db → Result A × Db

-- Go on with what an action gave, or pass its failure on.
abbrev pub after : {A B : Type 0} → Result A × Db → (A → Action B) → Result B × Db
after (ok a, db) f = f a db
after (err e, db) f = (err e, db)

-- Undo what an action wrote if it raised.
abbrev pub commit : {A : Type 0} → Db → Result A × Db → Result A × Db
commit before (ok a, db) = (ok a, db)
commit before (err e, db) = (err e, before)

infixl 5 ◌>>=◌ ◌>>◌
abbrev pub ◌>>=◌ : {A B : Type 0} → Action A → (A → Action B) → Action B
◌>>=◌ m f db = after (m db) f

abbrev pub ◌>>◌ : {A B : Type 0} → Action A → Action B → Action B
m >> k = m >>= λ _. k

module _ {A : Type 0} where
  abbrev pub pure : A → Action A
  pure a db = (ok a, db)

  abbrev pub raise : Failure → Action A
  raise e db = (err e, db)

  abbrev pub gets : (Db → A) → Action A
  gets f db = (ok (f db), db)

  abbrev pub or_raise : Option A → Failure → Action A
  or_raise none e = raise e
  or_raise (some a) e = pure a

  -- `dataSource.transaction`: what the action wrote is undone if it raises.
  abbrev pub transaction : Action A → Action A
  transaction m db = commit db (m db)

abbrev pub raise_if : Bool → Failure → Action (Unit {0})
raise_if b e db = (if b then err e else ok tt, db)

abbrev pub modify : (Db → Db) → Action (Unit {0})
modify f db = (ok tt, f db)

-- One row of a table keyed by a number.
abbrev pub update : (ℕ → Option ℕ) → ℕ → ℕ → ℕ → Option ℕ
update f k v j = if j == k then some v else f j

-- The table's next primary key, and the sequence of `prepare_id`: generated values are new.
abbrev pub fresh_id : Action ℕ
fresh_id db = (ok db.next_id, record db { next_id = db.next_id + 1 })

abbrev pub fresh_prepare_id : Action ℕ
fresh_prepare_id db = (ok db.next_prepare, record db { next_prepare = db.next_prepare + 1 })

-- `OutBoxService.publish`, within the caller's transaction.
abbrev pub publish : BillingEvent → Action (Unit {0})
publish event = modify λ db. record db { outbox = event ∷ db.outbox }

-- To split on what an action did and keep the equation.
pub Result-cases :
    {A : Type 0} (r : Result A × Db)
    → ((a : A) × (db : Db) × (r ≡ (ok a, db))) ⊎ ((e : Failure) × (db : Db) × (r ≡ (err e, db)))
Result-cases (ok a, db) = inl (a, db, refl)
Result-cases (err e, db) = inr (e, db, refl)
