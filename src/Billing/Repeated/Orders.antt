-- ===== src/Billing/Repeated/Orders.antt =====
-- An order that a client sends again (`createOrder` of billing/topup.service.ts).
use qayoda_backend.Base.{
  ℕ, ◌+◌, ◌≡◌, refl, ◌&&◌, ◌==◌, some, find?, find?-any, if◌then◌else◌, Bool-cases, inl, inr,
}
use qayoda_backend.Billing.Types.{Payment, PaymentProviderKind, provider_eq}
use qayoda_backend.Billing.Store.{Db, ok, err, client_id_reused}
use qayoda_backend.Billing.Topup.{create_order, insert_order, of_client}

module _ (user : ℕ) (kind : PaymentProviderKind) (amount client : ℕ) (db : Db) (p : Payment)
    (found : find? (of_client user client) db.payments ≡ some p) where
  -- A second order with the client id of one that stands inserts nothing: it is answered with the
  -- first one, or refused where that has another amount or provider.
  pub create_order-again : create_order user kind amount (some client) db ≡ (
    (if p.amount == amount && provider_eq p.provider kind then ok p else err client_id_reused),
    record db { next_id = db.next_id + 1; next_prepare = db.next_prepare + 1 },
  )
  unfolding create_order insert_order
  create_order-again =
      let taken = find?-any (of_client user client) db.payments p found in
      elim (Bool-cases (p.amount == amount)) [
        | inr other ↦ rw (taken, found, other) refl
        | inl same ↦ elim (Bool-cases (provider_eq p.provider kind)) [
          | inr other ↦ rw (taken, found, same, other) refl
          | inl own ↦ rw (taken, found, same, own) refl
        ]
      ]
