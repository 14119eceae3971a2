-- ===== src/Social/Lists.antt =====
-- follows/follows.service.ts: the pages of followers and of followed people. `named` is the filter
-- by name of a search, and none without one.
use qayoda_backend.Base.{
  ℕ, Bool, true, false, Option, none, some, List, [], ◌∷◌, ◌&&◌, ◌==◌, any, select, map, length,
  take, drop, or_default, String,
}
use qayoda_backend.Social.Types.{User, Follow, SocialDb, find_user}
use qayoda_backend.Social.Follows.{is_follow}

-- Which column is the person whose list it is.
pub data Side : Type 0 where
  followers following : Side

abbrev pub owner_of : Side → Follow → ℕ
owner_of followers f = f.followee_id
owner_of following f = f.follower_id

abbrev pub other_side : Side → Follow → ℕ
other_side followers f = f.follower_id
other_side following f = f.followee_id

pub record FollowPerson : Type 0 where
  pub id : ℕ
  pub name : Option String
  pub surname : Option String
  pub avatar_thumb_url : Option String
  pub is_verified_realtor : Bool
  pub follower_count : ℕ
  pub followed_by_me : Bool

-- The join on users, which keeps the rows whose other person has a row that matches.
abbrev pub joins : Option (User → Bool) → List User → ℕ → Bool
joins none users other = true
joins (some t) users other = any (λ u. u.id == other && t u) users

unfoldable pub listed : Side → ℕ → Option (User → Bool) → SocialDb → List Follow
listed side user named db =
    select (λ f. owner_of side f == user && joins named db.users (other_side side f)) db.follows

unfoldable pub followed_by : Option ℕ → ℕ → SocialDb → Bool
followed_by none other db = false
followed_by (some viewer) other db = any (is_follow viewer other) db.follows

abbrev pub person : User → Bool → FollowPerson
person u mine = record {
  id = u.id;
  name = u.name;
  surname = u.surname;
  avatar_thumb_url = u.avatar_thumb_url;
  is_verified_realtor = u.is_verified_realtor;
  follower_count = u.follower_count;
  followed_by_me = mine;
}

abbrev pub put_person : Option User → Bool → List FollowPerson → List FollowPerson
put_person none mine rest = rest
put_person (some u) mine rest = person u mine ∷ rest

unfoldable pub hydrate : Option ℕ → List ℕ → SocialDb → List FollowPerson
hydrate viewer [] db = []
hydrate viewer (i ∷ ids) db =
    put_person (find_user i db) (followed_by viewer i db) (hydrate viewer ids db)

pub record FollowPage : Type 0 where
  pub total : ℕ
  pub items : List FollowPerson

abbrev pub default_limit : ℕ
default_limit = 25

unfoldable pub page :
    Side → ℕ → Option ℕ → Option ℕ → Option ℕ → Option (User → Bool) → SocialDb → FollowPage
page side user viewer limit offset named db =
    let rows = listed side user named db in
    let shown = take (or_default limit default_limit) (drop (or_default offset 0) rows) in
    record { total = length rows; items = hydrate viewer (map (other_side side) shown) db }
