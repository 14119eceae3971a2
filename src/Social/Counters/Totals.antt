-- ===== src/Social/Counters/Totals.antt =====
-- The number over a list and the number on a profile (follows/follows.service.ts).
use qayoda_backend.Base.{
  ℕ, ◌≡◌, refl, sym, ◌∙◌, ◌&&◌, ◌==◌, Option, none, some, List, [], ◌∷◌, arith, count_if,
  length-select, find?-All, find?-some_test,
}
use qayoda_backend.Social.Types.{User, Follow, SocialDb, find_user, is_present}
use qayoda_backend.Social.Lists.{page, listed, followers, following, owner_of, other_side, joins}
use qayoda_backend.Social.Counters.Invariant.{IsCounted, Agrees, is_to, is_by}

listed-to :
    (k : ℕ) (users : List User) (rows : List Follow)
    → count_if (λ f. owner_of followers f == k && joins none users (other_side followers f)) rows
      ≡ count_if (is_to k) rows
listed-to k users [] = refl
listed-to k users (f ∷ rows) = ground (arith, listed-to k users rows)

listed-by :
    (k : ℕ) (users : List User) (rows : List Follow)
    → count_if (λ f. owner_of following f == k && joins none users (other_side following f)) rows
      ≡ count_if (is_by k) rows
listed-by k users [] = refl
listed-by k users (f ∷ rows) = ground (arith, listed-by k users rows)

-- When the counters are right, the total of the followers of a user that is found, without a search
-- and on any page, is the follower_count of the profile, and the total of those the user follows is
-- its following_count.
pub page-total :
    (user : ℕ) (viewer limit offset : Option ℕ) (u : User) (db : SocialDb)
    → IsCounted db
    → find_user user db ≡ some u
    → ((page followers user viewer limit offset none db).total ≡ u.follower_count)
      × ((page following user viewer limit offset none db).total ≡ u.following_count)
unfolding page listed find_user
page-total user viewer limit offset u db h e =
    let test = find?-some_test (λ x. x.id == user && is_present x.deleted_at) db.users u e in
    let same : u.id ≡ user = ground (arith, test) in
    let k =
      find?-All (Agrees db.follows) (λ x. x.id == user && is_present x.deleted_at) db.users u
        h.counts e in
    let to : u.follower_count ≡ count_if (is_to user) db.follows = rw same at k.followers in
    let by : u.following_count ≡ count_if (is_by user) db.follows = rw same at k.followed in
    (
      length-select
            (λ f. owner_of followers f == user && joins none db.users (other_side followers f))
            db.follows
          ∙ listed-to user db.users db.follows
          ∙ sym to,
      length-select
            (λ f. owner_of following f == user && joins none db.users (other_side following f))
            db.follows
          ∙ listed-by user db.users db.follows
          ∙ sym by,
    )
