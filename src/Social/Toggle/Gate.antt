-- ===== src/Social/Toggle/Gate.antt =====
-- What the tests of a follow let through (follows/follows.service.ts).
use qayoda_backend.Base.{
  ℕ, ◌≡◌, refl, Bool, true, false, some, ◌&&◌, ◌==◌, arith, if◌then◌else◌, Bool-cases, Option-cases,
  inl, inr, update_where, find?-updated,
}
use qayoda_backend.Base.Actions.{ok}
use qayoda_backend.Social.Types.{User, SocialDb, find_user, is_present, is_active}
use qayoda_backend.Social.Blocks.{assert_not_blocked, between_any}
use qayoda_backend.Social.Follows.{is_either, check_follow}

-- What the tests let through.
pub record IsOpen (a b : ℕ) (db : SocialDb) : Type 0 where
  pub apart : (a == b) ≡ false
  pub target : User
  pub found : find_user b db ≡ some target
  pub active : is_active target.status ≡ true

pub check_follow-IsOpen :
    (a b : ℕ) (next : Bool) (db s : SocialDb)
    → check_follow a b next db ≡ (ok tt, s)
    → IsOpen a b db × (s ≡ db)
unfolding check_follow assert_not_blocked
check_follow-IsOpen a b next db s h = elim (Bool-cases (a == b)) [
  | inl own ↦ absurd (cc (rw own at h))
  | inr apart ↦ elim (Option-cases (find_user b db)) [
    | inl gone ↦ absurd (cc (rw (apart, gone) at h))
    | inr (u, e) ↦ elim (Bool-cases (is_active u.status)) [
      | inl live ↦ (
        record { apart = apart; target = u; found = e; active = live },
        ground (arith, rw (apart, e, live) at h),
      )
      | inr barred ↦ absurd (cc (rw (apart, e, barred) at h))
    ]
  ]
]

pub IsOpen-unfollows :
    (a b : ℕ) (db : SocialDb) → IsOpen a b db → check_follow a b false db ≡ (ok tt, db)
unfolding check_follow
IsOpen-unfollows a b db h = rw (h.apart, h.found, h.active) refl

-- The target is still there when its counters have moved.
pub moved-IsOpen :
    (a b : ℕ) (f : User → User) (db s : SocialDb)
    → ((u : User) → (f u).id ≡ u.id)
    → ((u : User) → (f u).deleted_at ≡ u.deleted_at)
    → ((u : User) → (f u).status ≡ u.status)
    → s.users ≡ update_where (is_either a b) f db.users
    → IsOpen a b db
    → IsOpen a b s
unfolding find_user
moved-IsOpen a b f db s ids gone stays e h =
    let there =
      find?-updated (λ u. u.id == b && is_present u.deleted_at) (is_either a b) f db.users h.target
        (λ u. rw (ids u, gone u) refl) h.found in
    record {
      apart = h.apart;
      target = if is_either a b h.target then f h.target else h.target;
      found = rw e there;
      active = elim (Bool-cases (is_either a b h.target)) [
        | inl hit ↦ rw (hit, stays h.target) h.active
        | inr miss ↦ rw miss h.active
      ];
    }

pub same_users-find :
    (b : ℕ) (db s : SocialDb) → s.users ≡ db.users → find_user b s ≡ find_user b db
unfolding find_user
same_users-find b db s e = rw e refl

pub check_follow-unblocked :
    (a b : ℕ) (db s : SocialDb) → check_follow a b true db ≡ (ok tt, s) → between_any a b db ≡ false
unfolding check_follow assert_not_blocked
check_follow-unblocked a b db s h = elim (Bool-cases (between_any a b db)) [
  | inl yes_there ↦
      let gate = check_follow-IsOpen a b true db s h in
      absurd (cc (rw (gate.0.apart, gate.0.found, gate.0.active, yes_there) at h))
  | inr none_there ↦ none_there
]

pub IsOpen-passes :
    (a b : ℕ) (next : Bool) (db : SocialDb)
    → IsOpen a b db
    → (next ≡ true → between_any a b db ≡ false)
    → check_follow a b next db ≡ (ok tt, db)
unfolding check_follow assert_not_blocked
IsOpen-passes a b true db h free = rw (h.apart, h.found, h.active, free refl) refl
IsOpen-passes a b false db h free = rw (h.apart, h.found, h.active) refl
