-- ===== src/Social/Toggle/Calls.antt =====
-- A follow that is taken back, and a call that is made twice (follows/follows.service.ts).
use qayoda_backend.Base.{
  ℕ, ◌≡◌, refl, sym, ap, ◌∙◌, Bool, true, false, some, arith, Option-cases, inl, inr, any,
}
use qayoda_backend.Base.Actions.{ok, Result-cases}
use qayoda_backend.Social.Types.{User, SocialDb, find_user}
use qayoda_backend.Social.Blocks.{between_any}
use qayoda_backend.Social.Follows.{
  is_follow, inserted, write_follow, notify, set_row, set_follow, check_follow, follow_state,
  follows_now, follows_back, FollowState,
}
use qayoda_backend.Social.Toggle.Gate.{
  IsOpen, check_follow-IsOpen, IsOpen-unfollows, same_users-find, check_follow-unblocked,
  IsOpen-passes,
}
use qayoda_backend.Social.Toggle.Rows.{
  is_follow-own, rows_undone, set_row-any, set_row-again, set_row-between, set_row-IsOpen,
}

-- The view that a call gives when its target is there.
abbrev view : ℕ → ℕ → User → SocialDb → FollowState
view a b u db = record {
  following = any (is_follow a b) db.follows;
  follows_you = any (is_follow b a) db.follows;
  follower_count = u.follower_count;
  following_count = u.following_count;
}

follow_state_lem :
    (a b : ℕ) (u : User) (db : SocialDb)
    → find_user b db ≡ some u
    → follow_state (some a) b db ≡ (ok (view a b u db), db)
unfolding follow_state follows_now follows_back
follow_state_lem a b u db e = rw e refl

set_follow_lem :
    (a b : ℕ) (next : Bool) (db : SocialDb) (v : FollowState) (t : SocialDb)
    → set_follow a b next db ≡ (ok v, t)
    → IsOpen a b db × ((t ≡ set_row a b next db) × (v.following ≡ any (is_follow a b) t.follows))
unfolding set_follow follow_state follows_now
set_follow_lem a b next db v t h = elim (Result-cases (check_follow a b next db)) [
  | inl (tt, s, e) ↦
      let gate = check_follow-IsOpen a b next db s e in
      let rest = rw (e, gate.1) at h in
      elim (Option-cases (find_user b (set_row a b next db))) [
        | inl gone ↦ absurd (cc (rw gone at rest))
        | inr (u, f) ↦
            let done = rw f at rest in
            let same : set_row a b next db ≡ t = ap (λ r. r.1) done in
            (gate.0, (sym same, ground (arith, done)))
      ]
  | inr (x, s, e) ↦ absurd (cc (rw e at h))
]

set_follow-passed :
    (a b : ℕ) (next : Bool) (u : User) (t : SocialDb)
    → check_follow a b next t ≡ (ok tt, t)
    → find_user b (set_row a b next t) ≡ some u
    → set_follow a b next t ≡ (ok (view a b u (set_row a b next t)), set_row a b next t)
unfolding set_follow
set_follow-passed a b next u t gate e = rw gate (follow_state_lem a b u (set_row a b next t) e)

set_follow-unblocked :
    (a b : ℕ) (db : SocialDb) (v : FollowState) (t : SocialDb)
    → set_follow a b true db ≡ (ok v, t)
    → between_any a b db ≡ false
unfolding set_follow
set_follow-unblocked a b db v t h = elim (Result-cases (check_follow a b true db)) [
  | inl (tt, s, e) ↦ check_follow-unblocked a b db s e
  | inr (x, s, e) ↦ absurd (cc (rw e at h))
]

set_follow-free :
    (a b : ℕ) (next : Bool) (db : SocialDb) (v : FollowState) (t : SocialDb)
    → set_follow a b next db ≡ (ok v, t)
    → next ≡ true
    → between_any a b db ≡ false
set_follow-free a b true db v t h on = set_follow-unblocked a b db v t h
set_follow-free a b false db v t h on = absurd (cc on)

-- A follow that succeeds and is taken back: the unfollow succeeds, it says that the viewer no longer
-- follows where the follow said that they do, and the counters of every user and the rows are what
-- they were before, if the pair had no row then.
pub set_follow-undone :
    (a b : ℕ) (db t : SocialDb) (v : FollowState)
    → any (is_follow a b) db.follows ≡ false
    → set_follow a b true db ≡ (ok v, t)
    → (v.following ≡ true)
      × ((w : FollowState) × (s : SocialDb) × (set_follow a b false t ≡ (ok w, s))
          × (w.following ≡ false)
          × (s.users ≡ db.users)
          × (s.follows ≡ db.follows))
unfolding write_follow notify inserted
set_follow-undone a b db t v new h =
    let did = set_follow_lem a b true db v t h in
    let before = rows_undone a b db new in
    let gate : IsOpen a b (set_row a b true db) = set_row-IsOpen a b true db did.0 in
    let there : find_user b (set_row a b false (set_row a b true db)) ≡ some did.0.target =
      same_users-find b db (set_row a b false (set_row a b true db)) before.0 ∙ did.0.found in
    let says : v.following ≡ any (is_follow a b) (set_row a b true db).follows =
      did.1.1 ∙ ap (λ s. any (is_follow a b) s.follows) did.1.0 in
    (
      says ∙ rw (new, is_follow-own a b db.now) refl,
      (
        view a b did.0.target (set_row a b false (set_row a b true db)),
        set_row a b false (set_row a b true db),
        rw did.1.0 (
            set_follow-passed a b false did.0.target (set_row a b true db)
              (IsOpen-unfollows a b (set_row a b true db) gate) there),
        rw before.1 new,
        before.0,
        before.1,
      ),
    )

-- A call of setFollow that succeeds, to follow or to unfollow, says that the viewer follows or does
-- not, as it was asked. The same call again succeeds, says the same, and changes no counter and no
-- row of follows.
pub set_follow-again :
    (a b : ℕ) (next : Bool) (db t : SocialDb) (v : FollowState)
    → set_follow a b next db ≡ (ok v, t)
    → (v.following ≡ next)
      × ((w : FollowState) × (s : SocialDb) × (set_follow a b next t ≡ (ok w, s))
          × (w.following ≡ next)
          × (s.users ≡ t.users)
          × (s.follows ≡ t.follows))
set_follow-again a b next db t v h =
    let did = set_follow_lem a b next db v t h in
    let row : any (is_follow a b) t.follows ≡ next =
      ap (λ s. any (is_follow a b) s.follows) did.1.0 ∙ set_row-any a b next db in
    let gate : IsOpen a b t = rw did.1.0 (set_row-IsOpen a b next db did.0) in
    let free : next ≡ true → between_any a b t ≡ false = λ on.
      ap (between_any a b) did.1.0
      ∙ set_row-between a b next db
      ∙ set_follow-free a b next db v t h on in
    let same = set_row-again a b next t row in
    let there : find_user b (set_row a b next t) ≡ some gate.target =
      same_users-find b t (set_row a b next t) same.0 ∙ gate.found in
    (
      did.1.1 ∙ row,
      (
        view a b gate.target (set_row a b next t),
        set_row a b next t,
        set_follow-passed a b next gate.target t (IsOpen-passes a b next t gate free) there,
        ap (λ rows. any (is_follow a b) rows) same.1 ∙ row,
        same.0,
        same.1,
      ),
    )
