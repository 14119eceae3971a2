-- ===== src/Auth/Identities/Linked.antt =====
-- A provider's account opens one account, and an account has one identity of a provider
-- (auth/services/identity.service.ts).
use qayoda_backend.Base.{
  ℕ, ◌+◌, ◌≤◌, ◌≡◌, ◌⊎◌, refl, sym, true, false, some, String, ◌∷◌, arith, any, any-implies,
  any-count, find?, ◌==◌, ==_iff, eq_iff, count_if, count_if-update_where, Bool-cases, Option-cases,
  inl, inr,
}
use qayoda_backend.Base.Actions.{Result-cases, ok, err}
use qayoda_backend.Auth.Types.{
  Account, AuthIdentity, AuthProvider, provider_eq, phone, google, telegram,
}
use qayoda_backend.Auth.Store.{AuthDb, unique_violation, has_id}
use qayoda_backend.Auth.Identity.{
  IdentityInput, is_identity, is_provider_of, identity_clash, insert_identity, insert_account,
  enrich, sign_in_known, sign_in_matched, sign_up, resolve_in, link_new, link_in, used,
  find_by_verified_contact, others_clash, enriched, is_dirty, new_account, contact_clash,
}

pub record IsLinked (db : AuthDb) : Type 0 where
  pub one_owner :
      (provider : AuthProvider) (id : String) → count_if (is_identity provider id) db.identities ≤ 1
  pub one_each :
      (user : ℕ) (provider : AuthProvider)
      → count_if (is_provider_of user provider) db.identities ≤ 1

provider_eq-same : (a b : AuthProvider) → provider_eq a b ≡ true → a ≡ b
provider_eq-same phone phone h = refl
provider_eq-same google google h = refl
provider_eq-same telegram telegram h = refl
provider_eq-same phone google h = absurd (cc h)
provider_eq-same phone telegram h = absurd (cc h)
provider_eq-same google phone h = absurd (cc h)
provider_eq-same google telegram h = absurd (cc h)
provider_eq-same telegram phone h = absurd (cc h)
provider_eq-same telegram google h = absurd (cc h)

module _ (user : ℕ) (provider : AuthProvider) (id : String) (db : AuthDb) where
  -- The row that is inserted, with the next key.
  abbrev pub linked_row : AuthIdentity
  linked_row = record {
    id = db.next_id;
    user_id = user;
    provider = provider;
    provider_id = id;
    last_used_at = some db.now;
    created_at = db.now;
  }

  abbrev pub with_identity : AuthDb
  with_identity = record db { next_id = db.next_id + 1; identities = linked_row ∷ db.identities }

  pub insert_identity_lem :
      ((any (identity_clash user provider id) db.identities ≡ false)
        × (insert_identity user provider id db ≡ (ok linked_row, with_identity)))
      ⊎ (insert_identity user provider id db ≡ (err unique_violation, db))
  unfolding insert_identity
  insert_identity_lem = elim (Bool-cases (any (identity_clash user provider id) db.identities)) [
    | inl clash ↦ inr (rw clash refl)
    | inr free ↦ inl (free, rw free refl)
  ]

  with_identity-IsLinked :
      any (identity_clash user provider id) db.identities ≡ false
      → IsLinked db
      → IsLinked with_identity
  with_identity-IsLinked free h =
      let owners = any-count (is_identity provider id) db.identities (
        any-implies (is_identity provider id) (identity_clash user provider id) db.identities
          (λ x k. ground arith) free) in
      let each = any-count (is_provider_of user provider) db.identities (
        any-implies (is_provider_of user provider) (identity_clash user provider id) db.identities
          (λ x k. ground arith) free) in
      record {
        one_owner = λ q i. elim (Bool-cases (is_identity q i linked_row)) [
          | inr other ↦ rw other (ground (arith, h.one_owner q i))
          | inl hit ↦
              let same_q : q ≡ provider = provider_eq-same q provider (ground arith) in
              let same_i : i ≡ id = (eq_iff i id).0 (ground arith) in
              let none_left : count_if (is_identity q i) db.identities ≡ 0 =
                rw (same_q, same_i) owners in
              rw (hit, none_left) (omega arith)
        ];
        one_each = λ v q. elim (Bool-cases (is_provider_of v q linked_row)) [
          | inr other ↦ rw other (ground (arith, h.one_each v q))
          | inl hit ↦
              let same_q : q ≡ provider = provider_eq-same q provider (ground arith) in
              let same_v : v ≡ user = sym ((==_iff user v).0 (ground arith)) in
              let none_left : count_if (is_provider_of v q) db.identities ≡ 0 =
                rw (same_q, same_v) each in
              rw (hit, none_left) (omega arith)
        ];
      }

same-IsLinked : (s t : AuthDb) → t.identities ≡ s.identities → IsLinked s → IsLinked t
same-IsLinked s t e h = record {
  one_owner = λ q i. rw e (h.one_owner q i);
  one_each = λ v q. rw e (h.one_each v q);
}

insert_identity-IsLinked :
    (user : ℕ) (provider : AuthProvider) (id : String) (db : AuthDb)
    → IsLinked db
    → IsLinked (insert_identity user provider id db).1
insert_identity-IsLinked user provider id db h = elim (insert_identity_lem user provider id db) [
  | inl (free, e) ↦ rw e (with_identity-IsLinked user provider id db free h)
  | inr e ↦ rw e h
]

pub enrich-identities :
    (u : Account) (input : IdentityInput) (db : AuthDb)
    → (enrich u input db).1.identities ≡ db.identities
unfolding enrich
enrich-identities u input db = elim (Bool-cases (is_dirty input u)) [
  | inr same ↦ rw same refl
  | inl dirty ↦ elim (Bool-cases (any (others_clash (enriched input u)) db.users)) [
    | inl clash ↦ rw (dirty, clash) refl
    | inr fine ↦ rw (dirty, fine) refl
  ]
]

pub insert_account-identities :
    (input : IdentityInput) (db : AuthDb) → (insert_account input db).1.identities ≡ db.identities
unfolding insert_account
insert_account-identities input db =
    let u = new_account db.next_id input in
    elim (Bool-cases (any (contact_clash u.phone_number u.email) db.users)) [
      | inl clash ↦ rw clash refl
      | inr fine ↦ rw fine refl
    ]

module _ (input : IdentityInput) (db : AuthDb) (h : IsLinked db) where
  sign_in_known-IsLinked : (i : AuthIdentity) → IsLinked (sign_in_known i db).1
  unfolding sign_in_known
  sign_in_known-IsLinked i = elim (Option-cases (find? (has_id i.user_id) db.users)) [
    | inl deleted ↦ rw deleted h
    | inr (u, kept) ↦ rw kept (record {
      one_owner = λ q j. ground (
        arith,
        h.one_owner q j,
        count_if-update_where (is_identity q j) (λ x. x.id == i.id) (used db.now) db.identities
            (λ x k l. l),
      );
      one_each = λ v q. ground (
        arith,
        h.one_each v q,
        count_if-update_where (is_provider_of v q) (λ x. x.id == i.id) (used db.now) db.identities
            (λ x k l. l),
      );
    })
  ]

  sign_in_matched-IsLinked : (u : Account) → IsLinked (sign_in_matched u input db).1
  unfolding sign_in_matched
  sign_in_matched-IsLinked u =
      let inserted = insert_identity-IsLinked u.id input.provider input.provider_id db h in
      elim (Result-cases (insert_identity u.id input.provider input.provider_id db)) [
        | inr (x, t, e) ↦ rw e (rw e at inserted)
        | inl (i, t, e) ↦
            let kept =
              same-IsLinked t (enrich u input t).1 (enrich-identities u input t)
                (rw e at inserted) in
            elim (Result-cases (enrich u input t)) [
              | inr (x, t', e') ↦ rw (e, e') (rw e' at kept)
              | inl (u', t', e') ↦ rw (e, e') (rw e' at kept)
            ]
      ]

  sign_up-IsLinked : IsLinked (sign_up input db).1
  unfolding sign_up
  sign_up-IsLinked =
      let kept =
        same-IsLinked db (insert_account input db).1 (insert_account-identities input db) h in
      elim (Result-cases (insert_account input db)) [
        | inr (x, t, e) ↦ rw e (rw e at kept)
        | inl (u, t, e) ↦
            let inserted =
              insert_identity-IsLinked u.id input.provider input.provider_id t (rw e at kept) in
            elim (Result-cases (insert_identity u.id input.provider input.provider_id t)) [
              | inr (x, t', e') ↦ rw (e, e') (rw e' at inserted)
              | inl (i, t', e') ↦ rw (e, e') (rw e' at inserted)
            ]
      ]

  -- A sign-in through a provider keeps the identities unique.
  pub resolve_in-IsLinked : IsLinked (resolve_in input db).1
  unfolding resolve_in
  resolve_in-IsLinked =
      elim (Option-cases (find? (is_identity input.provider input.provider_id) db.identities)) [
        | inr (i, known) ↦ rw known (sign_in_known-IsLinked i)
        | inl unknown ↦ elim (Option-cases (find_by_verified_contact input db)) [
          | inr (u, matched) ↦ rw (unknown, matched) (sign_in_matched-IsLinked u)
          | inl unmatched ↦ rw (unknown, unmatched) sign_up-IsLinked
        ]
      ]

  link_new-IsLinked : (user : ℕ) → IsLinked (link_new user input db).1
  unfolding link_new
  link_new-IsLinked user =
      let inserted = insert_identity-IsLinked user input.provider input.provider_id db h in
      elim (Bool-cases (any (is_provider_of user input.provider) db.identities)) [
        | inl already ↦ rw already h
        | inr first ↦
            elim (Result-cases (insert_identity user input.provider input.provider_id db)) [
              | inr (x, t, e) ↦ rw (first, e) (rw e at inserted)
              | inl (i, t, e) ↦ elim (Option-cases (find? (has_id user) t.users)) [
                | inl missing ↦ rw (first, e, missing) (rw e at inserted)
                | inr (u, found) ↦
                    let kept =
                      same-IsLinked t (enrich u input t).1 (enrich-identities u input t)
                        (rw e at inserted) in
                    elim (Result-cases (enrich u input t)) [
                      | inr (x, t', e') ↦ rw (first, e, found, e') (rw e' at kept)
                      | inl (u', t', e') ↦ rw (first, e, found, e') (rw e' at kept)
                    ]
              ]
            ]
      ]

  pub link_in-IsLinked : (user : ℕ) → IsLinked (link_in user input db).1
  unfolding link_in
  link_in-IsLinked user =
      elim (Option-cases (find? (is_identity input.provider input.provider_id) db.identities)) [
        | inl free ↦ rw free (link_new-IsLinked user)
        | inr (i, taken) ↦ elim (Bool-cases (i.user_id == user)) [
          | inl own ↦ rw (taken, own) h
          | inr other ↦ rw (taken, other) h
        ]
      ]
