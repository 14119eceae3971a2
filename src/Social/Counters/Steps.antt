-- ===== src/Social/Counters/Steps.antt =====
-- Follows, unfollows, blocks and the ends of accounts in any order (follows/follows.service.ts,
-- blocks/blocks.service.ts, users/users.service.ts).
use qayoda_backend.Base.{
  ℕ, ◌≡◌, refl, Bool, true, false, List, [], ◌∷◌, ◌==◌, arith, any, count_if, update_where,
  update_where-keeps, Bool-cases, inl, inr, Option, some, ◌&&◌,
}
use qayoda_backend.Base.Actions.{Holds, bind-Holds, modify-Holds, read-Holds, modify, ◌>>◌}
use qayoda_backend.Billing.Types.{UserStatus}
use qayoda_backend.Social.Types.{User, Follow, SocialDb, SocialError, find_user}
use qayoda_backend.Social.Blocks.{block, unblock, insert_block, delete_block, assert_not_blocked}
use qayoda_backend.Social.Follows.{set_follow, set_row, check_follow, follow_state, notify}
use qayoda_backend.Social.Erase.{erase_account, is_of}
use qayoda_backend.Social.Counters.Invariant.{IsCounted, Agrees, is_to, is_by}
use qayoda_backend.Social.Counters.Toggled.{write_follow-IsCounted, delete_follow-IsCounted}
use qayoda_backend.Social.Counters.Erased.{erase_account-IsCounted}

pub set_row-IsCounted :
    (a b : ℕ) (next : Bool) (db : SocialDb) → IsCounted db → IsCounted (set_row a b next db)
unfolding notify
set_row-IsCounted a b true db h =
    let there = write_follow-IsCounted a b db h in
    record { counts = there.counts; single = there.single }
set_row-IsCounted a b false db h = delete_follow-IsCounted a b db h

-- What is read first and what is read last writes nothing.
check_follow-reads : (a b : ℕ) (next : Bool) (db : SocialDb) → (check_follow a b next db).1 ≡ db
unfolding check_follow assert_not_blocked find_user
check_follow-reads a b next db = ground arith

follow_state-reads :
    (viewer : Option ℕ) (user : ℕ) (db : SocialDb) → (follow_state viewer user db).1 ≡ db
unfolding follow_state find_user
follow_state-reads viewer user db = ground arith

set_follow-Holds :
    (a b : ℕ) (next : Bool)
    → Holds {S = SocialDb} {E = SocialError} IsCounted (λ _. Unit {0}) (set_follow a b next)
unfolding set_follow
set_follow-Holds a b next =
    bind-Holds IsCounted (λ _. Unit {0}) (λ _. Unit {0}) (check_follow a b next)
      (λ _. modify (set_row a b next) >> follow_state (some a) b)
      (read-Holds IsCounted (check_follow a b next) (check_follow-reads a b next))
      (λ _ _.
        bind-Holds IsCounted (λ _. Unit {0}) (λ _. Unit {0}) (modify (set_row a b next))
          (λ _. follow_state (some a) b)
          (modify-Holds IsCounted (set_row a b next) (set_row-IsCounted a b next))
          (λ _ _. read-Holds IsCounted (follow_state (some a) b) (follow_state-reads (some a) b)))

block-Holds : (a b : ℕ) (db : SocialDb) → IsCounted db → IsCounted (block a b db).1
unfolding block insert_block
block-Holds a b db h = elim (Bool-cases (a == b)) [
  | inl own ↦ rw own h
  | inr other ↦ elim (Bool-cases (any (λ r. r.blocker_id == a && r.blocked_id == b) db.blocks)) [
    | inl there ↦ rw (other, there) h
    | inr new ↦ rw (other, new) record { counts = h.counts; single = h.single }
  ]
]

unblock-Holds : (a b : ℕ) (db : SocialDb) → IsCounted db → IsCounted (unblock a b db).1
unfolding unblock delete_block
unblock-Holds a b db h = record { counts = h.counts; single = h.single }

-- What other parts of the server write: the clock, and of a user what is no counter.
abbrev pub enrolled : User → SocialDb → SocialDb
enrolled u db = record db {
  users = record u { follower_count = 0; following_count = 0 } ∷ db.users;
}

abbrev pub with_status : UserStatus → User → User
with_status status u = record u { status = status }

abbrev pub marked : ℕ → ℕ → UserStatus → SocialDb → SocialDb
marked now id status db = record db {
  now = now;
  users = update_where (λ u. u.id == id) (with_status status) db.users;
}

-- A step is a whole method, or the write of a setFollow that made its tests earlier.
pub data Step (db : SocialDb) : SocialDb → Type 0 where
  set : (a b : ℕ) (on : Bool) → Step db (set_follow a b on db).1
  write : (a b : ℕ) (on : Bool) → Step db (set_row a b on db)
  shut_out : (a b : ℕ) → Step db (block a b db).1
  let_in : (a b : ℕ) → Step db (unblock a b db).1
  erase : (id : ℕ) → Step db (erase_account id db)
  enroll : (u : User) → any (is_of u.id) db.follows ≡ false → Step db (enrolled u db)
  mark : (now id : ℕ) (status : UserStatus) → Step db (marked now id status db)

pub data Reach (start : SocialDb) : SocialDb → Type 0 where
  here : Reach start start
  next : {s t : SocialDb} → Reach start s → Step s t → Reach start t

fresh-none :
    (id : ℕ) (rows : List Follow)
    → any (is_of id) rows ≡ false
    → (count_if (is_to id) rows ≡ 0) × (count_if (is_by id) rows ≡ 0)
fresh-none id [] h = (refl, refl)
fresh-none id (f ∷ rows) h =
    let rest = fresh-none id rows (ground arith) in (ground (arith, rest.0), ground (arith, rest.1))

enrolled-IsCounted :
    (u : User) (db : SocialDb)
    → any (is_of u.id) db.follows ≡ false
    → IsCounted db
    → IsCounted (enrolled u db)
enrolled-IsCounted u db new h =
    let none = fresh-none u.id db.follows new in
    record {
      counts = (
        record { followers = ground (arith, none.0); followed = ground (arith, none.1) },
        h.counts,
      );
      single = h.single;
    }

pub Step-IsCounted : {s t : SocialDb} → Step s t → IsCounted s → IsCounted t
Step-IsCounted {s} (set a b on) h = (set_follow-Holds a b on).state s h
Step-IsCounted {s} (write a b on) h = set_row-IsCounted a b on s h
Step-IsCounted {s} (shut_out a b) h = block-Holds a b s h
Step-IsCounted {s} (let_in a b) h = unblock-Holds a b s h
Step-IsCounted {s} (erase id) h = erase_account-IsCounted id s h
Step-IsCounted {s} (enroll u new) h = enrolled-IsCounted u s new h
Step-IsCounted {s} (mark now id status) h = record {
  counts =
      update_where-keeps (Agrees s.follows) (λ u. u.id == id) (with_status status) s.users
        (λ u k. record { followers = k.followers; followed = k.followed }) h.counts;
  single = h.single;
}

-- From a state without users and follows, after any follows, unfollows, blocks, sign-ups and ends of
-- accounts, also with a write whose tests were made earlier: the follower_count and the
-- following_count of every user are the numbers of rows in follows, and no pair has two rows.
pub Reach-IsCounted : {s t : SocialDb} → s.users ≡ [] → s.follows ≡ [] → Reach s t → IsCounted t
Reach-IsCounted e f here = record { counts = rw e tt; single = λ a b. rw f (omega arith) }
Reach-IsCounted e f (next r st) = Step-IsCounted st (Reach-IsCounted e f r)
