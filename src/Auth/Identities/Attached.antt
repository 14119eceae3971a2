-- ===== src/Auth/Identities/Attached.antt =====
-- Linking an account of a provider and signing in with it (auth/services/identity.service.ts).
use qayoda_backend.Base.{
  ℕ, ◌≡◌, ◌≢◌, refl, sym, ap, ◌∙◌, true, false, none, some, any, any-updated, find?,
  find?-some_test, find?-passes, ◌==◌, ==_iff, arith, Bool-cases, Option-cases, inl, inr, List,
}
use qayoda_backend.Base.Actions.{ok, err, Result, Result-cases}
use qayoda_backend.Auth.Types.{Account, AuthIdentity}
use qayoda_backend.Auth.Store.{
  AuthDb, AuthFailure, has_id, is_kept, identity_taken, provider_already_linked,
}
use qayoda_backend.Auth.Identity.{
  IdentityInput, is_identity, is_provider_of, link, link_in, link_new, enrich, enriched,
  others_clash, is_dirty,
}
use qayoda_backend.Auth.Identities.Linked.{insert_identity_lem, linked_row, with_identity}
use qayoda_backend.Auth.Identities.Again.{OpensAgain, opens, found-first}

module _ (user : ℕ) (input : IdentityInput) (db : AuthDb) where
  -- What a link that succeeds tells: the account of the provider opens the user from then on, and
  -- before it opened the user already, or nobody while the user had no other of that provider.
  pub record IsAttached (i : AuthIdentity) (t : AuthDb) : Type 0 where
    pub owner : i.user_id ≡ user
    pub again : OpensAgain input t user
    pub before :
        (j : AuthIdentity)
        → find? (is_identity input.provider input.provider_id) db.identities ≡ some j
        → j.user_id ≡ user
    pub first :
        find? (is_identity input.provider input.provider_id) db.identities ≡ none
        → any (is_provider_of user input.provider) db.identities ≡ false

  -- A new identity, whatever has become of the users.
  attached :
      (i : AuthIdentity) (t : AuthDb) (users : List Account)
      → find? (is_identity input.provider input.provider_id) db.identities ≡ none
      → any (is_provider_of user input.provider) db.identities ≡ false
      → any (has_id user) users ≡ true
      → ◌≡◌ {A = Result AuthFailure AuthIdentity × AuthDb}
          (
            ok (linked_row user input.provider input.provider_id db),
            record (with_identity user input.provider input.provider_id db) { users = users },
          )
          (ok i, t)
      → IsAttached i t
  attached i t users free first there e =
      let same : linked_row user input.provider input.provider_id db ≡ i = cc e in
      let last = ap (λ (q : Result AuthFailure AuthIdentity × AuthDb). q.1) e in
      rw (← same, ← last)
        record {
          owner = refl;
          again =
              opens input _ (linked_row user input.provider input.provider_id db) user
                (found-first user input.provider input.provider_id db) refl there;
          before = λ j taken. absurd (cc (sym free ∙ taken));
          first = λ _. first;
        }

  link_new-IsAttached :
      (i : AuthIdentity) (t : AuthDb)
      → find? (is_identity input.provider input.provider_id) db.identities ≡ none
      → link_new user input db ≡ (ok i, t)
      → IsAttached i t
  unfolding link_new enrich
  link_new-IsAttached i t free e =
      elim (Bool-cases (any (is_provider_of user input.provider) db.identities)) [
        | inl already ↦ absurd (cc (rw already at e))
        | inr first ↦ elim (insert_identity_lem user input.provider input.provider_id db) [
          | inr clash ↦ absurd (cc (rw (first, clash) at e))
          | inl (unused, added) ↦ elim (Option-cases (find? (has_id user) db.users)) [
            | inl missing ↦ absurd (cc (rw (first, added, missing) at e))
            | inr (u, there) ↦
                let test : has_id user u ≡ true = find?-some_test (has_id user) db.users u there in
                let own : u.id ≡ user = (==_iff u.id user).0 (ground (arith, test)) in
                let kept : is_kept u.deleted_at ≡ true = ground (arith, test) in
                let known = find?-passes (has_id user) (has_id user) db.users u there test in
                elim (Bool-cases (is_dirty input u)) [
                  | inr clean ↦
                      attached i t _ free first known (rw (first, added, there, clean) at e)
                  | inl dirty ↦ elim (Bool-cases (any (others_clash (enriched input u)) db.users)) [
                    | inl clash ↦ absurd (cc (rw (first, added, there, dirty, clash) at e))
                    | inr fine ↦
                        let hit =
                          any-updated (has_id user) (λ x. x.id == u.id) (λ _. enriched input u)
                            db.users (λ x k. rw ((==_iff u.id user).1 own, kept) refl) known in
                        attached i t _ free first hit (rw (first, added, there, dirty, fine) at e)
                  ]
                ]
          ]
        ]
      ]

  link_in-IsAttached :
      (i : AuthIdentity) (t : AuthDb)
      → any (has_id user) db.users ≡ true
      → link_in user input db ≡ (ok i, t)
      → IsAttached i t
  unfolding link_in
  link_in-IsAttached i t there e =
      elim (Option-cases (find? (is_identity input.provider input.provider_id) db.identities)) [
        | inl free ↦ link_new-IsAttached i t free (rw free at e)
        | inr (j, taken) ↦ elim (Bool-cases (j.user_id == user)) [
          | inr other ↦ absurd (cc (rw (taken, other) at e))
          | inl own ↦
              let done = rw (taken, own) at e in
              let same : j ≡ i = cc done in
              let last : db ≡ t = ap (λ q. q.1) done in
              let mine : j.user_id ≡ user = (==_iff j.user_id user).0 own in
              rw (← same, ← last)
                record {
                  owner = mine;
                  again = opens input db j user taken mine there;
                  before =
                      λ k found. let alike : j ≡ k = cc (sym taken ∙ found) in rw (← alike) mine;
                  first = λ free. absurd (cc (sym free ∙ taken));
                }
        ]
      ]

link-IsAttached :
    (user : ℕ) (input : IdentityInput) (db t : AuthDb) (i : AuthIdentity)
    → any (has_id user) db.users ≡ true
    → link user input db ≡ (ok i, t)
    → IsAttached user input db i t
unfolding link
link-IsAttached user input db t i there e = elim (Result-cases (link_in user input db)) [
  | inl (j, s, done) ↦
      let same : link_in user input db ≡ (ok i, t) = rw done (rw done at e) in
      link_in-IsAttached user input db i t there same
  | inr (x, s, failed) ↦ absurd (cc (rw failed at e))
]

-- What a link answers and leaves: it is attached, the account of the provider is another user's, the
-- user has one of that provider already, or a new one fails otherwise and nothing is written.
pub data LinkAnswer (user : ℕ) (input : IdentityInput) (db : AuthDb)
    : Result AuthFailure AuthIdentity × AuthDb → Type 0 where
  attaches :
      (i : AuthIdentity) (t : AuthDb)
      → IsAttached user input db i t
      → LinkAnswer user input db (ok i, t)
  another :
      (j : AuthIdentity)
      → find? (is_identity input.provider input.provider_id) db.identities ≡ some j
      → j.user_id ≢ user
      → LinkAnswer user input db (err identity_taken, db)
  has_one :
      find? (is_identity input.provider input.provider_id) db.identities ≡ none
      → any (is_provider_of user input.provider) db.identities ≡ true
      → LinkAnswer user input db (err provider_already_linked, db)
  fails :
      (failure : AuthFailure)
      → find? (is_identity input.provider input.provider_id) db.identities ≡ none
      → any (is_provider_of user input.provider) db.identities ≡ false
      → LinkAnswer user input db (err failure, db)

link_new-has_one :
    (user : ℕ) (input : IdentityInput) (db : AuthDb)
    → any (is_provider_of user input.provider) db.identities ≡ true
    → link_new user input db ≡ (err provider_already_linked, db)
unfolding link_new
link_new-has_one user input db already = rw already refl

-- When a user who is kept links an account of a provider, then: the identity becomes or is the
-- user's, a sign-in with that account opens this user and is not new, and before it opened this user
-- already, or nobody while the user had no other account of that provider; or the account is another
-- user's, which raises IDENTITY_TAKEN; or the user has another account of the provider, which raises
-- PROVIDER_ALREADY_LINKED; or, where neither is so, the link of a new account fails otherwise. A
-- failure writes nothing.
pub link-LinkAnswer :
    (user : ℕ) (input : IdentityInput) (db : AuthDb)
    → any (has_id user) db.users ≡ true
    → LinkAnswer user input db (link user input db)
unfolding link link_in
link-LinkAnswer user input db there =
    elim (Option-cases (find? (is_identity input.provider input.provider_id) db.identities)) [
      | inr (j, taken) ↦ elim (Bool-cases (j.user_id == user)) [
        | inl own ↦
            rw (taken, own)
              (attaches j db (link-IsAttached user input db db j there (rw (taken, own) refl)))
        | inr other ↦ rw (taken, other) (another j taken (ground (arith, other)))
      ]
      | inl free ↦ elim (Bool-cases (any (is_provider_of user input.provider) db.identities)) [
        | inl already ↦ rw (free, link_new-has_one user input db already) (has_one free already)
        | inr first ↦ elim (Result-cases (link_new user input db)) [
          | inl (i, t, done) ↦
              rw (free, done)
                (attaches i t (link-IsAttached user input db t i there (rw (free, done) refl)))
          | inr (x, s, failed) ↦ rw (free, failed) (fails x free first)
        ]
      ]
    ]
