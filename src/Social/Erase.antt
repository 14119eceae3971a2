-- ===== src/Social/Erase.antt =====
-- What deleteOwnAccount of users/users.service.ts writes of blocks, follows and the counters of
-- others, and of the columns of the account that these modules read. Its other tables, the archiving
-- of the listings and the end of the sessions are not part of this state.
use qayoda_backend.Base.{
  ℕ, ◌-◌, Bool, not, none, some, List, ◌&&◌, ◌||◌, ◌==◌, any, select, update_where,
}
use qayoda_backend.Social.Types.{User, Follow, SocialDb}

unfoldable pub erase_blocks : ℕ → SocialDb → SocialDb
erase_blocks id db = record db {
  blocks = select (λ r. not (r.blocker_id == id || r.blocked_id == id)) db.blocks;
}

-- `UPDATE users u … FROM follows f`: a row of users is changed once, whatever rows it joins.
abbrev pub is_followed_by : ℕ → List Follow → User → Bool
is_followed_by id rows u = any (λ f. f.follower_id == id && f.followee_id == u.id) rows

abbrev pub is_following : ℕ → List Follow → User → Bool
is_following id rows u = any (λ f. f.follower_id == u.id && f.followee_id == id) rows

abbrev pub less_followed : User → User
less_followed u = record u { follower_count = u.follower_count - 1 }

abbrev pub less_following : User → User
less_following u = record u { following_count = u.following_count - 1 }

abbrev pub is_of : ℕ → Follow → Bool
is_of id f = f.follower_id == id || f.followee_id == id

unfoldable pub erase_follows : ℕ → SocialDb → SocialDb
erase_follows id db = record db {
  users =
      update_where (is_following id db.follows) less_following
        (update_where (is_followed_by id db.follows) less_followed db.users);
  follows = select (λ f. not (is_of id f)) db.follows;
}

abbrev pub scrubbed : ℕ → User → User
scrubbed now u = record u {
  name = none;
  surname = none;
  avatar_thumb_url = none;
  follower_count = 0;
  following_count = 0;
  deleted_at = some now;
}

unfoldable pub scrub : ℕ → SocialDb → SocialDb
scrub id db = record db { users = update_where (λ u. u.id == id) (scrubbed db.now) db.users }

unfoldable pub erase_account : ℕ → SocialDb → SocialDb
erase_account id db = scrub id (erase_follows id (erase_blocks id db))
