-- ===== src/Auth/Identities/Unlinked.antt =====
-- Ways into an account that are added and taken away (auth/services/identity.service.ts).
use qayoda_backend.Base.{
  ℕ, ◌+◌, ◌≤◌, ◌≡◌, refl, ap, Bool, not, List, [], ◌∷◌, arith, any, ◌==◌, leb, length,
  length-select, select, count_if, count_if-select, update_where, Bool-cases, inl, inr,
}
use qayoda_backend.Base.Actions.{Result, Result-cases, ok, err, transaction}
use qayoda_backend.Auth.Types.{AuthIdentity, AuthProvider, provider_eq}
use qayoda_backend.Auth.Store.{AuthDb, AuthFailure}
use qayoda_backend.Auth.Identity.{
  IdentityInput, is_identity, is_provider_of, resolve_in, link, link_in, unlink, unlink_in,
  without_contact,
}
use qayoda_backend.Auth.Identities.Linked.{IsLinked, resolve_in-IsLinked, link_in-IsLinked}

-- What a user keeps and what is taken away are all of its identities.
count-unlinked :
    (user : ℕ) (provider : AuthProvider) (rows : List AuthIdentity)
    → count_if (λ i. i.user_id == user) (select (λ i. not (is_provider_of user provider i)) rows)
        + count_if (is_provider_of user provider) rows
      ≡ count_if (λ i. i.user_id == user) rows
count-unlinked user provider [] = refl
count-unlinked user provider (x ∷ xs) = ground (arith, count-unlinked user provider xs)

select-none :
    (t : AuthIdentity → Bool) (rows : List AuthIdentity)
    → count_if t (select (λ i. not (t i)) rows) ≡ 0
select-none t [] = refl
select-none t (x ∷ xs) = ground (arith, select-none t xs)

module _ (user : ℕ) (provider : AuthProvider) (db : AuthDb) where
  abbrev without : AuthDb
  without = record db {
    identities = select (λ i. not (is_provider_of user provider i)) db.identities;
    users = update_where (λ u. u.id == user) (without_contact provider) db.users;
  }

  -- What unlinking does: nothing, or the user had two identities at least.
  data IsUnlink : Result AuthFailure (Unit {0}) × AuthDb → Type 0 where
    refused : (e : AuthFailure) → IsUnlink (err e, db)
    removed : 2 ≤ count_if (λ i. i.user_id == user) db.identities → IsUnlink (ok tt, without)

  unlink-IsUnlink : IsUnlink (unlink user provider db)
  unfolding unlink unlink_in
  unlink-IsUnlink =
      let mine = select (λ i. i.user_id == user) db.identities in
      let counted = length-select (λ i. i.user_id == user) db.identities in
      elim (Bool-cases (leb (length mine) 1)) [
        | inl last ↦ rw last (refused _)
        | inr more ↦ elim (Bool-cases (any (λ i. provider_eq provider i.provider) mine)) [
          | inr absent ↦ rw (more, absent) (refused _)
          | inl there ↦ rw (more, there) (removed (ground (arith, counted)))
        ]
      ]

  unlink-IsLinked :
      (r : Result AuthFailure (Unit {0}) × AuthDb) → IsUnlink r → IsLinked db → IsLinked r.1
  unlink-IsLinked _ (refused e) h = h
  unlink-IsLinked _ (removed two) h = record {
    one_owner = λ q i. ground (
      arith,
      h.one_owner q i,
      count_if-select (is_identity q i) (λ x. not (is_provider_of user provider x)) db.identities,
    );
    one_each = λ v q. ground (
      arith,
      h.one_each v q,
      count_if-select (is_provider_of v q) (λ x. not (is_provider_of user provider x))
          db.identities,
    );
  }

  removed-keeps :
      (r : Result AuthFailure (Unit {0}) × AuthDb) (t : AuthDb)
      → IsUnlink r
      → r ≡ (ok tt, t)
      → IsLinked db
      → (1 ≤ count_if (λ i. i.user_id == user) t.identities)
        × (count_if (is_provider_of user provider) t.identities ≡ 0)
  removed-keeps _ t (refused e) same h = absurd (cc same)
  removed-keeps _ t (removed two) same h =
      let last : without ≡ t = ap (λ q. q.1) same in
      rw (← last) (
        ground (arith, two, h.one_each user provider, count-unlinked user provider db.identities),
        select-none (is_provider_of user provider) db.identities,
      )

-- A user who unlinks a provider keeps another way in, and has none of that provider any more.
pub unlink-keeps_one :
    (user : ℕ) (provider : AuthProvider) (db t : AuthDb)
    → IsLinked db
    → unlink user provider db ≡ (ok tt, t)
    → (1 ≤ count_if (λ i. i.user_id == user) t.identities)
      × (count_if (is_provider_of user provider) t.identities ≡ 0)
unlink-keeps_one user provider db t h e =
    removed-keeps user provider db _ t (unlink-IsUnlink user provider db) e h

-- Attempts to sign in, links and unlinks, each a transaction, in any order.
pub data Step (db : AuthDb) : AuthDb → Type 0 where
  attempt : (input : IdentityInput) → Step db (transaction (resolve_in input) db).1
  attach : (user : ℕ) (input : IdentityInput) → Step db (link user input db).1
  detach : (user : ℕ) (provider : AuthProvider) → Step db (unlink user provider db).1

pub data Reach (start : AuthDb) : AuthDb → Type 0 where
  here : Reach start start
  next : {s t : AuthDb} → Reach start s → Step s t → Reach start t

commit-IsLinked :
    {A : Type 0} (m : AuthDb → Result AuthFailure A × AuthDb) (db : AuthDb)
    → IsLinked db
    → IsLinked (m db).1
    → IsLinked (transaction m db).1
commit-IsLinked m db h k = elim (Result-cases (m db)) [
  | inl (a, t, e) ↦ rw e (rw e at k)
  | inr (x, t, e) ↦ rw e h
]

Step-IsLinked : {s t : AuthDb} → Step s t → IsLinked s → IsLinked t
unfolding link
Step-IsLinked {s} (attempt input) h =
    commit-IsLinked (resolve_in input) s h (resolve_in-IsLinked input s h)
Step-IsLinked {s} (attach user input) h =
    commit-IsLinked (link_in user input) s h (link_in-IsLinked input s h user)
Step-IsLinked {s} (detach user provider) h =
    unlink-IsLinked user provider s _ (unlink-IsUnlink user provider s) h

-- From a state without identities, after any attempts to sign in, links and unlinks: an account of
-- a provider opens one user at most, and a user has one identity of each provider at most.
pub Reach-IsLinked : {s t : AuthDb} → s.identities ≡ [] → Reach s t → IsLinked t
Reach-IsLinked e here = record {
  one_owner = λ q i. rw e (omega arith);
  one_each = λ v q. rw e (omega arith);
}
Reach-IsLinked e (next r st) = Step-IsLinked st (Reach-IsLinked e r)
