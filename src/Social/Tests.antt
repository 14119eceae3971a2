-- ===== src/Social/Tests.antt =====
-- The theorems on follows and blocks at concrete inputs: three people.
use qayoda_backend.Base.{ℕ, ◌≡◌, refl, true, false, none, some, [], ◌∷◌, ◌&&◌}
use qayoda_backend.Base.Actions.{ok, err}
use qayoda_backend.Billing.Types.{active}
use qayoda_backend.Social.Types.{User, SocialDb, find_user, blocked}
use qayoda_backend.Social.Blocks.{
  insert_block, between_any, assert_not_blocked, blocked_among, blocked_set, has_blocked, has,
  list_for, people_of,
}
use qayoda_backend.Social.Follows.{
  set_follow, check_follow, follow_state, follows_now, follows_back, write_follow, delete_follow,
  inserted, inserted_count, notify, FollowState, set_row,
}
use qayoda_backend.Social.Erase.{erase_account, erase_blocks, erase_follows, scrub}
use qayoda_backend.Social.Lists.{page, listed, hydrate, followed_by, followers, following}
use qayoda_backend.Social.BlockedAmong.{blocked_among-between}
use qayoda_backend.Social.Toggle.Calls.{set_follow-undone, set_follow-again}
use qayoda_backend.Social.Counters.Invariant.{IsCounted}
use qayoda_backend.Social.Counters.Steps.{
  Reach, here, next, enroll, set, erase, Reach-IsCounted, enrolled,
}
use qayoda_backend.Social.Counters.Totals.{page-total}

abbrev person_of : ℕ → User
person_of id = record {
  id = id;
  name = some "Ali";
  surname = none;
  avatar_thumb_url = none;
  is_verified_realtor = false;
  status = active;
  follower_count = 0;
  following_count = 0;
  deleted_at = none;
}

abbrev empty : SocialDb
empty = record { now = 5; users = []; follows = []; blocks = []; notices = [] }

abbrev start : SocialDb
start = enrolled (person_of 3) (enrolled (person_of 2) (enrolled (person_of 1) empty))

abbrev joined : Reach empty start
joined =
    next (next (next here (enroll (person_of 1) refl)) (enroll (person_of 2) refl))
      (enroll (person_of 3) refl)

-- 1 and 3 follow 2.
abbrev followed : SocialDb
followed = (set_follow 3 2 true (set_follow 1 2 true start).1).1

abbrev left : SocialDb
left = erase_account 1 followed

Reach-IsCounted_example : IsCounted left
Reach-IsCounted_example =
    Reach-IsCounted refl refl (next (next (next joined (set 1 2 true)) (set 3 2 true)) (erase 1))

erase_account_test : left.users ≡ (
    record (person_of 3) { following_count = 1 }
    ∷ record (person_of 2) { follower_count = 1 }
    ∷ record (person_of 1) { name = none; deleted_at = some 5 }
    ∷ [])
unfolding set_follow check_follow assert_not_blocked between_any find_user write_follow inserted
    inserted_count notify erase_account erase_blocks erase_follows scrub follow_state
erase_account_test = refl

abbrev seen : FollowState
seen = record { following = true; follows_you = false; follower_count = 1; following_count = 0 }

set_follow-undone_example :
    (seen.following ≡ true)
    × ((w : FollowState) × (s : SocialDb) × (set_follow 1 2 false (set_row 1 2 true start)
          ≡ (ok w, s))
        × (w.following ≡ false)
        × (s.users ≡ start.users)
        × (s.follows ≡ start.follows))
unfolding set_follow check_follow assert_not_blocked between_any find_user write_follow inserted
    inserted_count notify follow_state follows_now follows_back delete_follow
set_follow-undone_example = set_follow-undone 1 2 start (set_row 1 2 true start) seen refl refl

set_follow-again_example :
    (seen.following ≡ true)
    × ((w : FollowState) × (s : SocialDb) × (set_follow 1 2 true (set_row 1 2 true start)
          ≡ (ok w, s))
        × (w.following ≡ true)
        × (s.users ≡ (set_row 1 2 true start).users)
        × (s.follows ≡ (set_row 1 2 true start).follows))
unfolding set_follow check_follow assert_not_blocked between_any find_user write_follow inserted
    inserted_count notify follow_state follows_now follows_back
set_follow-again_example = set_follow-again 1 2 true start (set_row 1 2 true start) seen refl

abbrev shut : SocialDb
shut = insert_block 3 1 start

blocked_among-between_example :
    (has 3 (blocked_among 1 (2 ∷ 3 ∷ []) shut) ≡ (has 3 (2 ∷ 3 ∷ []) && between_any 1 3 shut))
    × (has 3 (blocked_set 1 (2 ∷ 3 ∷ []) shut) ≡ (has 3 (2 ∷ 3 ∷ []) && has_blocked 1 3 shut))
blocked_among-between_example = blocked_among-between 1 3 (2 ∷ 3 ∷ []) shut

-- A block stops a follow, whoever drew it.
blocked_test : (set_follow 1 3 true shut).0 ≡ err blocked
unfolding set_follow check_follow assert_not_blocked between_any find_user insert_block
blocked_test = refl

list_for_test : list_for 3 shut ≡ (
    record { id = 1; name = some "Ali"; surname = none; avatar_thumb_url = none; blocked_at = 5 }
    ∷ [])
unfolding list_for people_of find_user insert_block
list_for_test = refl

page-total_example :
    ((page followers 2 (some 3) (some 1) none none followed).total ≡ 2)
    × ((page following 2 (some 3) (some 1) none none followed).total ≡ 0)
unfolding set_follow check_follow assert_not_blocked between_any find_user write_follow inserted
    inserted_count notify follow_state follows_now follows_back
page-total_example =
    page-total 2 (some 3) (some 1) none (record (person_of 2) { follower_count = 2 }) followed
      (Reach-IsCounted refl refl (next (next joined (set 1 2 true)) (set 3 2 true))) refl

-- The first page of one row: 3 was last, and does not follow itself.
page_test : (page followers 2 (some 3) (some 1) none none followed).items ≡ (
    record {
      id = 3;
      name = some "Ali";
      surname = none;
      avatar_thumb_url = none;
      is_verified_realtor = false;
      follower_count = 0;
      followed_by_me = false;
    }
    ∷ [])
unfolding page listed hydrate followed_by set_follow check_follow assert_not_blocked between_any
    find_user write_follow inserted inserted_count notify follow_state
page_test = refl
