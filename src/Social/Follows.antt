-- ===== src/Social/Follows.antt =====
-- follows/follows.service.ts: setFollow and state.
use qayoda_backend.Base.{
  ℕ, ◌+◌, ◌-◌, Bool, false, not, Option, none, some, List, ◌∷◌, ◌&&◌, ◌||◌, ◌==◌, if◌then◌else◌,
  any, select, count_if, update_where,
}
use qayoda_backend.Base.Actions.{◌>>=◌, ◌>>◌, pure, gets, or_raise, raise_if, modify}
use qayoda_backend.Social.Types.{
  User, Follow, SocialDb, Action, cannot_follow_self, user_not_found, find_user, is_active,
}
use qayoda_backend.Social.Blocks.{assert_not_blocked}

abbrev pub is_follow : ℕ → ℕ → Follow → Bool
is_follow a b f = f.follower_id == a && f.followee_id == b

-- The rows with the pair in them, and how many were written: `ON CONFLICT DO NOTHING`.
unfoldable pub inserted : ℕ → ℕ → SocialDb → List Follow
inserted a b db =
    if any (is_follow a b) db.follows
    then db.follows
    else (record { follower_id = a; followee_id = b; created_at = db.now } ∷ db.follows)

unfoldable pub inserted_count : ℕ → ℕ → SocialDb → ℕ
inserted_count a b db = if any (is_follow a b) db.follows then 0 else 1

abbrev pub gains : ℕ → ℕ → ℕ → User → User
gains a b n u = record u {
  follower_count = u.follower_count + (if u.id == b then n else 0);
  following_count = u.following_count + (if u.id == a then n else 0);
}

-- `GREATEST(x - y, 0)` is subtraction on ℕ.
abbrev pub loses : ℕ → ℕ → ℕ → User → User
loses a b n u = record u {
  follower_count = u.follower_count - (if u.id == b then n else 0);
  following_count = u.following_count - (if u.id == a then n else 0);
}

abbrev pub is_either : ℕ → ℕ → User → Bool
is_either a b u = u.id == a || u.id == b

-- The statement that writes the row and moves both counters by how many rows it wrote.
unfoldable pub write_follow : ℕ → ℕ → SocialDb → SocialDb
write_follow a b db = record db {
  follows = inserted a b db;
  users = update_where (is_either a b) (gains a b (inserted_count a b db)) db.users;
}

unfoldable pub delete_follow : ℕ → ℕ → SocialDb → SocialDb
delete_follow a b db = record db {
  follows = select (λ f. not (is_follow a b f)) db.follows;
  users = update_where (is_either a b) (loses a b (count_if (is_follow a b) db.follows)) db.users;
}

unfoldable pub notify : ℕ → ℕ → SocialDb → SocialDb
notify user actor db = record db {
  notices = record { user_id = user; actor_id = actor } ∷ db.notices;
}

pub record FollowState : Type 0 where
  pub following : Bool
  pub follows_you : Bool
  pub follower_count : ℕ
  pub following_count : ℕ

unfoldable pub follows_now : Option ℕ → ℕ → SocialDb → Bool
follows_now none user db = false
follows_now (some viewer) user db = any (is_follow viewer user) db.follows

unfoldable pub follows_back : Option ℕ → ℕ → SocialDb → Bool
follows_back none user db = false
follows_back (some viewer) user db = any (is_follow user viewer) db.follows

-- `state`
unfoldable pub follow_state : Option ℕ → ℕ → Action FollowState
follow_state viewer user = do
  found ← gets (find_user user)
  u ← or_raise found user_not_found
  following ← gets (follows_now viewer user)
  back ← gets (follows_back viewer user)
  pure (record {
    following = following;
    follows_you = back;
    follower_count = u.follower_count;
    following_count = u.following_count;
  })

-- What setFollow tests first: the target, and for a follow that nobody has blocked the other.
unfoldable pub check_follow : ℕ → ℕ → Bool → Action (Unit {0})
check_follow a b next = do
  raise_if (a == b) cannot_follow_self
  found ← gets (find_user b)
  target ← or_raise found user_not_found
  raise_if (not (is_active target.status)) user_not_found
  if next then assert_not_blocked a b else pure tt

abbrev pub set_row : ℕ → ℕ → Bool → SocialDb → SocialDb
set_row a b next db = if next then notify b a (write_follow a b db) else delete_follow a b db

unfoldable pub set_follow : ℕ → ℕ → Bool → Action FollowState
set_follow a b next = do check_follow a b next; modify (set_row a b next); follow_state (some a) b
