-- ===== src/Social/Toggle/Rows.antt =====
-- The row and the counters that a follow writes (follows/follows.service.ts).
use qayoda_backend.Base.{
  ℕ, ◌+◌, ◌-◌, ◌≡◌, refl, Bool, true, false, not, List, [], ◌∷◌, ◌==◌, arith, if◌then◌else◌,
  Bool-cases, inl, inr, any, any-count, select, count_if, update_where,
}
use qayoda_backend.Social.Types.{User, Follow, SocialDb}
use qayoda_backend.Social.Blocks.{between_any}
use qayoda_backend.Social.Follows.{
  is_follow, inserted, inserted_count, write_follow, delete_follow, gains, loses, is_either, notify,
  set_row,
}
use qayoda_backend.Social.Toggle.Gate.{IsOpen, moved-IsOpen}

pub loses-gains : (a b n : ℕ) (u : User) → loses a b n (gains a b n u) ≡ u
loses-gains a b n u =
    let p : u.follower_count + (if u.id == b then n else 0) - (if u.id == b then n else 0)
        ≡ u.follower_count =
      omega arith in
    let q : u.following_count + (if u.id == a then n else 0) - (if u.id == a then n else 0)
        ≡ u.following_count =
      omega arith in
    λ i. record u { follower_count = p i; following_count = q i }

pub undone :
    (a b n : ℕ) (us : List User)
    → update_where (is_either a b) (loses a b n) (update_where (is_either a b) (gains a b n) us)
      ≡ us
undone a b n [] = refl
undone a b n (u ∷ us) = elim (Bool-cases (is_either a b u)) [
  | inl hit ↦ rw (hit, hit) (λ i. loses-gains a b n u i ∷ undone a b n us i)
  | inr miss ↦ rw (miss, miss) (λ i. u ∷ undone a b n us i)
]

pub kept :
    (a b : ℕ) (rows : List Follow)
    → any (is_follow a b) rows ≡ false
    → select (λ f. not (is_follow a b f)) rows ≡ rows
kept a b [] h = refl
kept a b (f ∷ rows) h = ground (arith, kept a b rows)

pub is_follow-own :
    (a b t : ℕ) → is_follow a b (record { follower_id = a; followee_id = b; created_at = t }) ≡ true
is_follow-own a b t = ground arith

-- The rows and the counters.
pub rows_undone :
    (a b : ℕ) (db : SocialDb)
    → any (is_follow a b) db.follows ≡ false
    → ((set_row a b false (set_row a b true db)).users ≡ db.users)
      × ((set_row a b false (set_row a b true db)).follows ≡ db.follows)
unfolding delete_follow write_follow notify inserted inserted_count
rows_undone a b db new =
    let own = is_follow-own a b db.now in
    let zero_rows = any-count (is_follow a b) db.follows new in
    (rw (new, own, zero_rows) (undone a b 1 db.users), rw (new, own) (kept a b db.follows new))

pub set_row-users :
    (a b : ℕ) (db : SocialDb)
    → (set_row a b true db).users
      ≡ update_where (is_either a b) (gains a b (inserted_count a b db)) db.users
unfolding write_follow notify
set_row-users a b db = refl

pub gains-none : (a b : ℕ) (us : List User) → update_where (is_either a b) (gains a b 0) us ≡ us
gains-none a b [] = refl
gains-none a b (u ∷ us) = elim (Bool-cases (is_either a b u)) [
  | inl hit ↦
      let p : u.follower_count + (if u.id == b then 0 else 0) ≡ u.follower_count = ground arith in
      let q : u.following_count + (if u.id == a then 0 else 0) ≡ u.following_count = ground arith in
      rw hit (λ i. record u { follower_count = p i; following_count = q i } ∷ gains-none a b us i)
  | inr miss ↦ rw miss (λ i. u ∷ gains-none a b us i)
]

pub loses-none : (a b : ℕ) (us : List User) → update_where (is_either a b) (loses a b 0) us ≡ us
loses-none a b [] = refl
loses-none a b (u ∷ us) = elim (Bool-cases (is_either a b u)) [
  | inl hit ↦
      let p : u.follower_count - (if u.id == b then 0 else 0) ≡ u.follower_count = ground arith in
      let q : u.following_count - (if u.id == a then 0 else 0) ≡ u.following_count = ground arith in
      rw hit (λ i. record u { follower_count = p i; following_count = q i } ∷ loses-none a b us i)
  | inr miss ↦ rw miss (λ i. u ∷ loses-none a b us i)
]

pub select-gone :
    (a b : ℕ) (rows : List Follow)
    → any (is_follow a b) (select (λ f. not (is_follow a b f)) rows) ≡ false
select-gone a b [] = refl
select-gone a b (f ∷ rows) = ground (arith, select-gone a b rows)

-- After the write the row is there or not, as it was asked.
pub set_row-any :
    (a b : ℕ) (next : Bool) (db : SocialDb)
    → any (is_follow a b) (set_row a b next db).follows ≡ next
unfolding write_follow delete_follow notify inserted
set_row-any a b true db = elim (Bool-cases (any (is_follow a b) db.follows)) [
  | inl old ↦ rw (old, old) refl
  | inr new ↦ rw (new, is_follow-own a b db.now) refl
]
set_row-any a b false db = select-gone a b db.follows

-- The same write on a state that has what it asks for.
pub set_row-again :
    (a b : ℕ) (next : Bool) (t : SocialDb)
    → any (is_follow a b) t.follows ≡ next
    → ((set_row a b next t).users ≡ t.users) × ((set_row a b next t).follows ≡ t.follows)
unfolding write_follow delete_follow notify inserted inserted_count
set_row-again a b true t h = (rw h (gains-none a b t.users), rw h refl)
set_row-again a b false t h =
    (rw (any-count (is_follow a b) t.follows h) (loses-none a b t.users), kept a b t.follows h)

pub set_row-IsOpen :
    (a b : ℕ) (next : Bool) (db : SocialDb) → IsOpen a b db → IsOpen a b (set_row a b next db)
unfolding delete_follow
set_row-IsOpen a b true db h =
    moved-IsOpen a b (gains a b (inserted_count a b db)) db (set_row a b true db) (λ _. refl)
      (λ _. refl) (λ _. refl) (set_row-users a b db) h
set_row-IsOpen a b false db h =
    moved-IsOpen a b (loses a b (count_if (is_follow a b) db.follows)) db (set_row a b false db)
      (λ _. refl) (λ _. refl) (λ _. refl) refl h

pub set_row-between :
    (a b : ℕ) (next : Bool) (db : SocialDb)
    → between_any a b (set_row a b next db) ≡ between_any a b db
unfolding between_any write_follow delete_follow notify
set_row-between a b true db = refl
set_row-between a b false db = refl
