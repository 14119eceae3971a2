-- ===== src/Social/Types.antt =====
-- The rows of follows and blocks, what these modules read of users, and their state
-- (follows/follow.entity.ts, blocks/block.entity.ts, users/entities/user.entity.ts). A list of rows
-- has the newest first.
use qayoda_backend.Base.{ℕ, Bool, true, false, Option, none, some, List, String, ◌&&◌, ◌==◌, find?}
use qayoda_backend.Base.Actions.{Action as ActionOf}
use qayoda_backend.Billing.Types.{UserStatus, active}

pub record User : Type 0 where
  pub id : ℕ
  pub name : Option String
  pub surname : Option String
  pub avatar_thumb_url : Option String
  pub is_verified_realtor : Bool
  pub status : UserStatus
  pub follower_count : ℕ
  pub following_count : ℕ
  pub deleted_at : Option ℕ

pub record Follow : Type 0 where
  pub follower_id : ℕ
  pub followee_id : ℕ
  pub created_at : ℕ

pub record UserBlock : Type 0 where
  pub blocker_id : ℕ
  pub blocked_id : ℕ
  pub created_at : ℕ

-- A NEW_FOLLOWER notification.
pub record NewFollower : Type 0 where
  pub user_id : ℕ
  pub actor_id : ℕ

pub record SocialDb : Type 0 where
  pub now : ℕ
  pub users : List User
  pub follows : List Follow
  pub blocks : List UserBlock
  pub notices : List NewFollower

pub data SocialError : Type 0 where
  cannot_follow_self user_not_found self_block blocked : SocialError

abbrev pub Action : Type 0 → Type 0
Action = ActionOf SocialDb SocialError

abbrev pub is_active : UserStatus → Bool
is_active active = true
is_active _ = false

-- The repository of users leaves out rows with a deleted_at.
abbrev pub is_present : Option ℕ → Bool
is_present none = true
is_present (some _) = false

unfoldable pub find_user : ℕ → SocialDb → Option User
find_user id db = find? (λ u. u.id == id && is_present u.deleted_at) db.users
