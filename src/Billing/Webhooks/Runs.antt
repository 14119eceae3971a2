-- ===== src/Billing/Webhooks/Runs.antt =====
-- Running an action of a webhook (billing/providers) as steps of the billing services.
use qayoda_backend.Base.{◌≡◌, some, Bool-cases, inl, inr, String, ℕ, str_eq}
use qayoda_backend.Billing.Types.{Payment, PaymentProviderKind}
use qayoda_backend.Billing.Payments.{find_by_provider_txn, find_by_prepare_id}
use qayoda_backend.Billing.Settlement.Invariant.{IsSound}
use qayoda_backend.Billing.Settlement.Snapshot.{IsSnapshot}
use qayoda_backend.Billing.Lifecycle.Kept.{read-IsSnapshot}
use qayoda_backend.Billing.Store.{Db, Result, Action, ok, err, after}
use qayoda_backend.Billing.Lifecycle.Steps.{Reach}

pub after-Reach :
    {A B : Type 0} {s : Db} (r : Result A × Db) (f : A → Action B)
    → Reach s r.1
    → ((a : A) (t : Db) → Reach s t → Reach s (f a t).1)
    → Reach s (after r f).1
after-Reach (ok a, t) f h k = k a t h
after-Reach (err e, t) f h k = h

-- What holds of the state that an action leaves holds when all that follows only answers.
pub step-at :
    {A B : Type 0} (E : Db → Type 0) (r : Result A × Db) (f : A → Action B)
    → E r.1
    → ((a : A) (t : Db) → (f a t).1 ≡ t)
    → E (after r f).1
step-at E (ok a, t) f h k = rw (k a t) h
step-at E (err e, t) f h k = h

-- The payment that a provider's reference finds is a snapshot of the state.
pub find_by_provider_txn-IsSnapshot :
    (provider : PaymentProviderKind) (txn : String) (x : Payment) (db : Db)
    → IsSound db
    → find_by_provider_txn provider txn db ≡ some x
    → IsSnapshot x db
unfolding find_by_provider_txn
find_by_provider_txn-IsSnapshot provider txn x db h e = elim (Bool-cases (str_eq txn "")) [
  | inl blank ↦ absurd (cc (rw blank at e))
  | inr named ↦ read-IsSnapshot _ db x h (rw named at e)
]

-- The same of Click's number.
pub find_by_prepare_id-IsSnapshot :
    (provider : PaymentProviderKind) (id : ℕ) (x : Payment) (db : Db)
    → IsSound db
    → find_by_prepare_id provider id db ≡ some x
    → IsSnapshot x db
unfolding find_by_prepare_id
find_by_prepare_id-IsSnapshot provider id x db h e = read-IsSnapshot _ db x h e
