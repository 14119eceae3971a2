-- ===== src/Social/Counters/Toggled.antt =====
-- What a follow, an unfollow and the end of an account write keeps the counters right
-- (follows/follows.service.ts, users/users.service.ts).
use qayoda_backend.Base.{
  ℕ, ◌+◌, ◌≤◌, ◌≡◌, false, not, ◌&&◌, ◌==◌, arith, if◌then◌else◌, Bool-cases, inl, inr, any,
  any-count, select, count_if, count_if-select, update_where-All,
}
use qayoda_backend.Social.Types.{SocialDb}
use qayoda_backend.Social.Follows.{
  is_follow, inserted, inserted_count, write_follow, delete_follow, gains, loses, is_either,
}
use qayoda_backend.Social.Counters.Invariant.{is_to, is_by, Agrees, IsCounted, others-to, others-by}

inserted-to :
    (a b k : ℕ) (db : SocialDb)
    → count_if (is_to k) (inserted a b db)
      ≡ count_if (is_to k) db.follows + (if k == b then inserted_count a b db else 0)
unfolding inserted inserted_count
inserted-to a b k db = ground arith

inserted-by :
    (a b k : ℕ) (db : SocialDb)
    → count_if (is_by k) (inserted a b db)
      ≡ count_if (is_by k) db.follows + (if k == a then inserted_count a b db else 0)
unfolding inserted inserted_count
inserted-by a b k db = ground arith

inserted-single :
    (a b c d : ℕ) (db : SocialDb)
    → count_if (is_follow c d) db.follows ≤ 1
    → count_if (is_follow c d) (inserted a b db) ≤ 1
unfolding inserted
inserted-single a b c d db h = elim (Bool-cases (any (is_follow a b) db.follows)) [
  | inl there ↦ rw there h
  | inr new ↦ elim (Bool-cases (a == c && b == d)) [
    | inl same ↦
        let first : a ≡ c = ground arith in
        let second : b ≡ d = ground arith in
        let gone : any (is_follow c d) db.follows ≡ false = rw (first, second) at new in
        ground (arith, any-count (is_follow c d) db.follows gone)
    | inr apart ↦ ground arith
  ]
]

pub write_follow-IsCounted :
    (a b : ℕ) (db : SocialDb) → IsCounted db → IsCounted (write_follow a b db)
unfolding write_follow
write_follow-IsCounted a b db h = record {
  counts =
      update_where-All (Agrees db.follows) (Agrees (inserted a b db)) (is_either a b)
        (gains a b (inserted_count a b db)) db.users
        (λ u k. record {
          followers = ground (arith, k.followers, inserted-to a b u.id db);
          followed = ground (arith, k.followed, inserted-by a b u.id db);
        })
        h.counts;
  single = λ c d. inserted-single a b c d db (h.single c d);
}

pub delete_follow-IsCounted :
    (a b : ℕ) (db : SocialDb) → IsCounted db → IsCounted (delete_follow a b db)
unfolding delete_follow
delete_follow-IsCounted a b db h = record {
  counts =
      update_where-All (Agrees db.follows) (Agrees (select (λ f. not (is_follow a b f)) db.follows))
        (is_either a b) (loses a b (count_if (is_follow a b) db.follows)) db.users
        (λ u k. record {
          followers = ground (arith, k.followers, others-to a b u.id db.follows);
          followed = ground (arith, k.followed, others-by a b u.id db.follows);
        })
        h.counts;
  single = λ c d. ground (
    arith,
    h.single c d,
    count_if-select (is_follow c d) (λ f. not (is_follow a b f)) db.follows,
  );
}
