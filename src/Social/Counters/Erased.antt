-- ===== src/Social/Counters/Erased.antt =====
-- The end of an account takes its rows and lowers the counters of others by as many
-- (users/users.service.ts).
use qayoda_backend.Base.{
  ℕ, ◌-◌, ◌≤◌, ◌≡◌, not, List, ◌==◌, arith, if◌then◌else◌, Bool-cases, inl, inr, count_if,
  count_if-select, update_where, update_where-All,
}
use qayoda_backend.Social.Types.{User, Follow, SocialDb}
use qayoda_backend.Social.Follows.{is_follow}
use qayoda_backend.Social.Erase.{
  is_of, is_followed_by, is_following, less_followed, less_following, scrubbed, scrub,
  erase_follows, erase_blocks, erase_account,
}
use qayoda_backend.Social.Counters.Invariant.{
  is_to, is_by, Agrees, IsCounted, without, without-to, without-by, without-none_to,
  without-none_by, any-count_one,
}

-- Between the statements: one of the counters is lower already.
record HasLeft (id : ℕ) (rows : List Follow) (u : User) : Type 0 where
  followers :
      u.follower_count ≡ count_if (is_to u.id) rows - (if is_followed_by id rows u then 1 else 0)
  followed : u.following_count ≡ count_if (is_by u.id) rows

record HasParted (id : ℕ) (rows : List Follow) (u : User) : Type 0 where
  followers :
      u.follower_count ≡ count_if (is_to u.id) rows - (if is_followed_by id rows u then 1 else 0)
  followed :
      u.following_count ≡ count_if (is_by u.id) rows - (if is_following id rows u then 1 else 0)

less_followed-HasLeft :
    (id : ℕ) (rows : List Follow) (u : User)
    → Agrees rows u
    → HasLeft id rows (if is_followed_by id rows u then less_followed u else u)
less_followed-HasLeft id rows u h = elim (Bool-cases (is_followed_by id rows u)) [
  | inl hit ↦
      rw hit record { followers = rw hit (ground (arith, h.followers)); followed = h.followed }
  | inr miss ↦
      rw miss record { followers = rw miss (ground (arith, h.followers)); followed = h.followed }
]

less_following-HasParted :
    (id : ℕ) (rows : List Follow) (u : User)
    → HasLeft id rows u
    → HasParted id rows (if is_following id rows u then less_following u else u)
less_following-HasParted id rows u h = elim (Bool-cases (is_following id rows u)) [
  | inl hit ↦
      rw hit record { followers = h.followers; followed = rw hit (ground (arith, h.followed)) }
  | inr miss ↦
      rw miss record { followers = h.followers; followed = rw miss (ground (arith, h.followed)) }
]

scrubbed-Agrees :
    (id now : ℕ) (rows : List Follow)
    → ((a b : ℕ) → count_if (is_follow a b) rows ≤ 1)
    → (u : User) → HasParted id rows u
    → Agrees (without id rows) (if u.id == id then scrubbed now u else u)
scrubbed-Agrees id now rows single u h = elim (Bool-cases (u.id == id)) [
  | inl own ↦
      let same : u.id ≡ id = ground arith in
      rw own record {
        followers = ground (arith, without-none_to id u.id rows same);
        followed = ground (arith, without-none_by id u.id rows same);
      }
  | inr other ↦
      let to = any-count_one (is_follow id u.id) rows (single id u.id) in
      let by = any-count_one (is_follow u.id id) rows (single u.id id) in
      rw other record {
        followers = ground (arith, h.followers, without-to id u.id rows other, to);
        followed = ground (arith, h.followed, without-by id u.id rows other, by);
      }
]

pub erase_account-IsCounted :
    (id : ℕ) (db : SocialDb) → IsCounted db → IsCounted (erase_account id db)
unfolding erase_account erase_follows erase_blocks scrub
erase_account-IsCounted id db h = record {
  counts =
      let left =
        update_where-All (Agrees db.follows) (HasLeft id db.follows) (is_followed_by id db.follows)
          less_followed db.users (less_followed-HasLeft id db.follows) h.counts in
      let parted =
        update_where-All (HasLeft id db.follows) (HasParted id db.follows)
          (is_following id db.follows) less_following
          (update_where (is_followed_by id db.follows) less_followed db.users)
          (less_following-HasParted id db.follows) left in
      update_where-All (HasParted id db.follows) (Agrees (without id db.follows)) (λ u. u.id == id)
        (scrubbed db.now)
        (update_where (is_following id db.follows) less_following
          (update_where (is_followed_by id db.follows) less_followed db.users))
        (scrubbed-Agrees id db.now db.follows h.single) parted;
  single = λ a b.
      ground
        (arith, h.single a b, count_if-select (is_follow a b) (λ f. not (is_of id f)) db.follows);
}
