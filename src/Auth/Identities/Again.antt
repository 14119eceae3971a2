-- ===== src/Auth/Identities/Again.antt =====
-- Signing in again with the same account of a provider (auth/services/identity.service.ts).
use qayoda_backend.Base.{
  ℕ, ◌+◌, ◌≡◌, refl, sym, ap, Bool, true, false, ◌&&◌, some, String, ◌∷◌, arith, any, any-updated,
  any-find?, find?-passes, find?, find?-updated, find?-some_test, ◌==◌, ==_iff, eq_iff,
  update_where, Bool-cases, Option-cases, inl, inr, is_text,
}
use qayoda_backend.Base.Actions.{ok}
use qayoda_backend.Auth.Types.{
  Account, AuthIdentity, AuthProvider, provider_eq, phone, google, telegram,
}
use qayoda_backend.Auth.Store.{AuthDb, has_id, is_kept}
use qayoda_backend.Auth.Identity.{
  IdentityInput, is_identity, resolve_in, sign_in_known, sign_in_matched, sign_up, insert_account,
  enrich, enriched, is_dirty, others_clash, new_account, contact_clash, find_by_verified_contact,
  used, given, plus,
}
use qayoda_backend.Auth.Identities.Linked.{insert_identity_lem, linked_row, with_identity}

-- A known identity whose user is kept opens that user.
known-again :
    (input : IdentityInput) (t : AuthDb) (i : AuthIdentity) (u : Account)
    → find? (is_identity input.provider input.provider_id) t.identities ≡ some i
    → find? (has_id i.user_id) t.users ≡ some u
    → (t' : AuthDb) × (resolve_in input t ≡ (ok (u, false), t'))
unfolding resolve_in sign_in_known
known-again input t i u known kept = (
  record t { identities = update_where (λ x. x.id == i.id) (used t.now) t.identities },
  rw (known, kept) refl,
)

-- Signing in again opens the same user as before, which is not new then.
abbrev pub OpensAgain : IdentityInput → AuthDb → ℕ → Type 0
OpensAgain input t id =
    (u : Account) × (t' : AuthDb) × (resolve_in input t ≡ (ok (u, false), t')) × (u.id ≡ id)

pub opens :
    (input : IdentityInput) (t : AuthDb) (i : AuthIdentity) (id : ℕ)
    → find? (is_identity input.provider input.provider_id) t.identities ≡ some i
    → i.user_id ≡ id
    → any (has_id id) t.users ≡ true
    → OpensAgain input t id
opens input t i id known same there =
    let (u, kept) = any-find? (has_id id) t.users there in
    let own : find? (has_id i.user_id) t.users ≡ some u = rw same kept in
    let (t', e) = known-again input t i u known own in
    let test : has_id id u ≡ true = find?-some_test (has_id id) t.users u kept in
    (u, t', e, (==_iff u.id id).0 (ground arith))

provider_eq_refl : (p : AuthProvider) → provider_eq p p ≡ true
provider_eq_refl phone = refl
provider_eq_refl google = refl
provider_eq_refl telegram = refl

-- The row that was just inserted is the one that is found.
pub found-first :
    (user : ℕ) (p : AuthProvider) (id : String) (db : AuthDb)
    → find? (is_identity p id) (with_identity user p id db).identities
      ≡ some (linked_row user p id db)
found-first user p id db = rw (provider_eq_refl p, (eq_iff id id).1 refl) refl

module _ (input : IdentityInput) (db : AuthDb) where
  known-OpensAgain :
      (i : AuthIdentity) (u : Account) (new : Bool) (t : AuthDb)
      → find? (is_identity input.provider input.provider_id) db.identities ≡ some i
      → sign_in_known i db ≡ (ok (u, new), t)
      → OpensAgain input t u.id
  unfolding sign_in_known
  known-OpensAgain i u new t known e = elim (Option-cases (find? (has_id i.user_id) db.users)) [
    | inl deleted ↦ absurd (cc (rw deleted at e))
    | inr (v, kept) ↦
        let opened = rw kept at e in
        let same : v ≡ u = cc opened in
        let last = ap (λ q. q.1) opened in
        let test : has_id i.user_id v ≡ true = find?-some_test (has_id i.user_id) db.users v kept in
        let its : v.id ≡ i.user_id = (==_iff v.id i.user_id).0 (ground arith) in
        let row =
          find?-updated (is_identity input.provider input.provider_id) (λ x. x.id == i.id)
            (used db.now) db.identities i (λ y. refl) known in
        let hit : any (has_id v.id) db.users ≡ true =
          rw its (find?-passes (has_id i.user_id) (has_id i.user_id) db.users v kept test) in
        rw (← same, ← last)
          (opens input _ (used db.now i) v.id (rw ((==_iff i.id i.id).1 refl) at row) (sym its) hit)
  ]

  matched-OpensAgain :
      (v u : Account) (new : Bool) (t : AuthDb)
      → any (has_id v.id) db.users ≡ true
      → is_kept v.deleted_at ≡ true
      → sign_in_matched v input db ≡ (ok (u, new), t)
      → OpensAgain input t u.id
  unfolding sign_in_matched enrich
  matched-OpensAgain v u new t there kept e =
      elim (insert_identity_lem v.id input.provider input.provider_id db) [
        | inr clash ↦ absurd (cc (rw clash at e))
        | inl (free, added) ↦ elim (Bool-cases (is_dirty input v)) [
          | inr clean ↦
              let opened = rw (added, clean) at e in
              let same : v ≡ u = cc opened in
              let last = ap (λ q. q.1) opened in
              rw (← same, ← last)
                (opens input _ (linked_row v.id input.provider input.provider_id db) v.id
                  (found-first v.id input.provider input.provider_id db) refl there)
          | inl dirty ↦ elim (Bool-cases (any (others_clash (enriched input v)) db.users)) [
            | inl clash ↦ absurd (cc (rw (added, dirty, clash) at e))
            | inr fine ↦
                let opened = rw (added, dirty, fine) at e in
                let same : enriched input v ≡ u = cc opened in
                let last = ap (λ q. q.1) opened in
                let hit =
                  any-updated (has_id v.id) (λ x. x.id == v.id) (λ _. enriched input v) db.users
                    (λ x k. rw ((==_iff v.id v.id).1 refl, kept) refl) there in
                rw (← same, ← last)
                  (opens input _ (linked_row v.id input.provider input.provider_id db) v.id
                    (found-first v.id input.provider input.provider_id db) refl hit)
          ]
        ]
      ]

  sign_up-OpensAgain :
      (u : Account) (new : Bool) (t : AuthDb)
      → sign_up input db ≡ (ok (u, new), t)
      → OpensAgain input t u.id
  unfolding sign_up insert_account
  sign_up-OpensAgain u new t e =
      let v = new_account db.next_id input in
      elim (Bool-cases (any (contact_clash v.phone_number v.email) db.users)) [
        | inl clash ↦ absurd (cc (rw clash at e))
        | inr fine ↦
            let db' : AuthDb = record db { next_id = db.next_id + 1; users = v ∷ db.users } in
            elim (insert_identity_lem v.id input.provider input.provider_id db') [
              | inr clash ↦ absurd (cc (rw (fine, clash) at e))
              | inl (free, added) ↦
                  let opened = rw (fine, added) at e in
                  let same : v ≡ u = cc opened in
                  let last = ap (λ q. q.1) opened in
                  rw (← same, ← last)
                    (opens input _ (linked_row v.id input.provider input.provider_id db') v.id
                      (found-first v.id input.provider input.provider_id db') refl
                      (rw ((==_iff v.id v.id).1 refl) refl))
            ]
      ]

passes-kept :
    (t : Account → Bool) (db : AuthDb) (v : Account)
    → find? (λ u. t u && is_kept u.deleted_at) db.users ≡ some v
    → (any (has_id v.id) db.users ≡ true) × (is_kept v.deleted_at ≡ true)
passes-kept t db v e =
    let test : t v && is_kept v.deleted_at ≡ true = find?-some_test _ db.users v e in
    let kept : is_kept v.deleted_at ≡ true = ground arith in
    let own : has_id v.id v ≡ true = rw ((==_iff v.id v.id).1 refl, kept) refl in
    (find?-passes _ (has_id v.id) db.users v e own, kept)

contact-kept :
    (input : IdentityInput) (db : AuthDb) (v : Account)
    → find_by_verified_contact input db ≡ some v
    → (any (has_id v.id) db.users ≡ true) × (is_kept v.deleted_at ≡ true)
unfolding find_by_verified_contact
contact-kept input db v e = elim (Option-cases (given input.verified_phone)) [
  | inr (p, has_phone) ↦
      passes-kept (λ u. is_text (plus p) u.phone_number) db v
        (rw (has_phone, find_by_verified_contact) at e)
  | inl no_phone ↦ elim (Option-cases (given input.verified_email)) [
    | inl no_email ↦ absurd (cc (rw (no_phone, find_by_verified_contact, no_email) at e))
    | inr (m, has_email) ↦
        passes-kept (λ u. is_text m u.email) db v
          (rw (no_phone, find_by_verified_contact, has_email) at e)
  ]
]

-- Who signed in through a provider's account signs in to the same user with it the next time, and
-- is not new then.
pub resolve_in-again :
    (input : IdentityInput) (db t : AuthDb) (u : Account) (new : Bool)
    → resolve_in input db ≡ (ok (u, new), t)
    → (v : Account) × (t' : AuthDb) × (resolve_in input t ≡ (ok (v, false), t')) × (v.id ≡ u.id)
unfolding resolve_in
resolve_in-again input db t u new e =
    elim (Option-cases (find? (is_identity input.provider input.provider_id) db.identities)) [
      | inr (i, known) ↦ known-OpensAgain input db i u new t known (rw known at e)
      | inl unknown ↦ elim (Option-cases (find_by_verified_contact input db)) [
        | inl unmatched ↦ sign_up-OpensAgain input db u new t (rw (unknown, unmatched) at e)
        | inr (v, matched) ↦
            let there = contact-kept input db v matched in
            matched-OpensAgain input db v u new t there.0 there.1 (rw (unknown, matched) at e)
      ]
    ]
