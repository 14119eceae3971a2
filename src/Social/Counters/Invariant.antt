-- ===== src/Social/Counters/Invariant.antt =====
-- The counters of every user are the numbers of follow rows, and no pair has two rows
-- (follows/follows.service.ts, follows/follow.entity.ts).
use qayoda_backend.Base.{
  ℕ, ◌+◌, ◌≤◌, ◌≡◌, refl, Bool, false, not, List, [], ◌∷◌, ◌==◌, arith, if◌then◌else◌, Bool-cases,
  inl, inr, any, select, count_if, All,
}
use qayoda_backend.Social.Types.{User, Follow, SocialDb}
use qayoda_backend.Social.Follows.{is_follow}
use qayoda_backend.Social.Erase.{is_of}

abbrev pub is_to : ℕ → Follow → Bool
is_to k f = k == f.followee_id

abbrev pub is_by : ℕ → Follow → Bool
is_by k f = k == f.follower_id

pub record Agrees (rows : List Follow) (u : User) : Type 0 where
  pub followers : u.follower_count ≡ count_if (is_to u.id) rows
  pub followed : u.following_count ≡ count_if (is_by u.id) rows

pub record IsCounted (db : SocialDb) : Type 0 where
  pub counts : All (Agrees db.follows) db.users
  pub single : (a b : ℕ) → count_if (is_follow a b) db.follows ≤ 1

-- The rows left when a pair is taken out.
abbrev pub others : ℕ → ℕ → List Follow → List Follow
others a b rows = select (λ f. not (is_follow a b f)) rows

pub others-to :
    (a b k : ℕ) (rows : List Follow)
    → count_if (is_to k) (others a b rows) + (if k == b then count_if (is_follow a b) rows else 0)
      ≡ count_if (is_to k) rows
others-to a b k [] = ground arith
others-to a b k (f ∷ rows) = ground (arith, others-to a b k rows)

pub others-by :
    (a b k : ℕ) (rows : List Follow)
    → count_if (is_by k) (others a b rows) + (if k == a then count_if (is_follow a b) rows else 0)
      ≡ count_if (is_by k) rows
others-by a b k [] = ground arith
others-by a b k (f ∷ rows) = ground (arith, others-by a b k rows)

-- The rows left when a user is taken out of them.
abbrev pub without : ℕ → List Follow → List Follow
without id rows = select (λ f. not (is_of id f)) rows

pub without-to :
    (id k : ℕ) (rows : List Follow)
    → (k == id) ≡ false
    → count_if (is_to k) (without id rows) + count_if (is_follow id k) rows
      ≡ count_if (is_to k) rows
without-to id k [] h = refl
without-to id k (f ∷ rows) h = ground (arith, without-to id k rows h)

pub without-by :
    (id k : ℕ) (rows : List Follow)
    → (k == id) ≡ false
    → count_if (is_by k) (without id rows) + count_if (is_follow k id) rows
      ≡ count_if (is_by k) rows
without-by id k [] h = refl
without-by id k (f ∷ rows) h = ground (arith, without-by id k rows h)

pub without-none_to :
    (id k : ℕ) (rows : List Follow) → k ≡ id → count_if (is_to k) (without id rows) ≡ 0
without-none_to id k [] h = refl
without-none_to id k (f ∷ rows) h = ground (arith, without-none_to id k rows h)

pub without-none_by :
    (id k : ℕ) (rows : List Follow) → k ≡ id → count_if (is_by k) (without id rows) ≡ 0
without-none_by id k [] h = refl
without-none_by id k (f ∷ rows) h = ground (arith, without-none_by id k rows h)

-- At most one row: it is there or it is not.
pub any-count_one :
    (t : Follow → Bool) (rows : List Follow)
    → count_if t rows ≤ 1
    → count_if t rows ≡ (if any t rows then 1 else 0)
any-count_one t [] h = refl
any-count_one t (f ∷ rows) h = elim (Bool-cases (t f)) [
  | inl hit ↦ ground (arith)
  | inr miss ↦ ground (arith, any-count_one t rows)
]
