-- ===== src/Social/Blocks.antt =====
-- blocks/blocks.service.ts: who has blocked whom.
use qayoda_backend.Base.{
  ℕ, Bool, true, false, not, Option, none, some, List, [], ◌∷◌, ◌&&◌, ◌||◌, ◌==◌, if◌then◌else◌,
  any, select, map, String,
}
use qayoda_backend.Base.Actions.{◌>>=◌, ◌>>◌, pure, gets, raise_if, modify}
use qayoda_backend.Social.Types.{UserBlock, SocialDb, Action, self_block, blocked, find_user, User}

abbrev pub is_block : ℕ → ℕ → UserBlock → Bool
is_block a b r = r.blocker_id == a && r.blocked_id == b

-- `INSERT … ON CONFLICT DO NOTHING`: the pair is the primary key.
unfoldable pub insert_block : ℕ → ℕ → SocialDb → SocialDb
insert_block a b db = if any (is_block a b) db.blocks then db else (record db {
  blocks = record { blocker_id = a; blocked_id = b; created_at = db.now } ∷ db.blocks;
})

unfoldable pub block : ℕ → ℕ → Action Bool
block blocker other = do
  raise_if (blocker == other) self_block
  modify (insert_block blocker other)
  pure true

unfoldable pub delete_block : ℕ → ℕ → SocialDb → SocialDb
delete_block a b db = record db { blocks = select (λ r. not (is_block a b r)) db.blocks }

unfoldable pub unblock : ℕ → ℕ → Action Bool
unblock blocker other = do modify (delete_block blocker other); pure false

unfoldable pub has_blocked : ℕ → ℕ → SocialDb → Bool
has_blocked a b db = any (is_block a b) db.blocks

-- Is there a block in either direction?
unfoldable pub between_any : ℕ → ℕ → SocialDb → Bool
between_any a b db = any (λ r. is_block a b r || is_block b a r) db.blocks

unfoldable pub assert_not_blocked : ℕ → ℕ → Action (Unit {0})
assert_not_blocked a b = do found ← gets (between_any a b); raise_if found blocked

-- `ANY($2)`, `In(ids)`, `Set.has`
abbrev pub has : ℕ → List ℕ → Bool
has k ids = any (λ i. k == i) ids

abbrev pub touches : ℕ → List ℕ → UserBlock → Bool
touches user others r =
    r.blocker_id == user && has r.blocked_id others
    || r.blocked_id == user && has r.blocker_id others

abbrev pub other_of : ℕ → UserBlock → ℕ
other_of user r = if r.blocker_id == user then r.blocked_id else r.blocker_id

-- The same question asked about many people at once.
unfoldable pub blocked_among : ℕ → List ℕ → SocialDb → List ℕ
blocked_among user [] db = []
blocked_among user (o ∷ os) db = map (other_of user) (select (touches user (o ∷ os)) db.blocks)

-- Which of these people the viewer has blocked. The set of ids is a list that may repeat them.
unfoldable pub blocked_set : ℕ → List ℕ → SocialDb → List ℕ
blocked_set blocker [] db = []
blocked_set blocker (o ∷ os) db =
    map (λ r. r.blocked_id)
      (select (λ r. r.blocker_id == blocker && has r.blocked_id (o ∷ os)) db.blocks)

pub record BlockedPerson : Type 0 where
  pub id : ℕ
  pub name : Option String
  pub surname : Option String
  pub avatar_thumb_url : Option String
  pub blocked_at : ℕ

abbrev pub blocked_person : UserBlock → User → BlockedPerson
blocked_person r u = record {
  id = u.id;
  name = u.name;
  surname = u.surname;
  avatar_thumb_url = u.avatar_thumb_url;
  blocked_at = r.created_at;
}

abbrev pub with_person : Option User → UserBlock → List BlockedPerson → List BlockedPerson
with_person none r rest = rest
with_person (some u) r rest = blocked_person r u ∷ rest

unfoldable pub people_of : List UserBlock → SocialDb → List BlockedPerson
people_of [] db = []
people_of (r ∷ rs) db = with_person (find_user r.blocked_id db) r (people_of rs db)

unfoldable pub list_for : ℕ → SocialDb → List BlockedPerson
list_for blocker db = people_of (select (λ r. r.blocker_id == blocker) db.blocks) db
