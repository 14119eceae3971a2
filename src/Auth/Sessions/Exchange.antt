-- ===== src/Auth/Sessions/Exchange.antt =====
-- A pair that was issued is exchanged for the next one (auth/services/token.service.ts).
use Prim.Native.Char.{code}
use qayoda_backend.Base.{
  ℕ, ◌+◌, ◌<◌, ◌≡◌, refl, ap, Bool, true, false, ◌||◌, ◌&&◌, Option, some, String, List, [], ◌∷◌,
  arith, find?, eq_iff, ◌==◌, ltb, is_some, or_default, str_eq, All, count_if, Bool-cases, inl, inr,
}
use qayoda_backend.Base.Actions.{ok, err}
use qayoda_backend.Auth.Types.{Account, RefreshToken, refresh_ttl_ms}
use qayoda_backend.Auth.Store.{AuthDb, has_id, is_banned, token_reuse_detected}
use qayoda_backend.Auth.Tokens.{
  rotate, rotate_parts, rotate_read, claim, claim_token, check_owner, issue_pair, insert_token,
  first_part, second_part, dotted, issued_row, is_presented, is_live, revoke_where, access_of,
  view_of,
}
use qayoda_backend.Auth.Sessions.Live.{live_in}
use qayoda_backend.Auth.Sessions.Calm.{burn_lem}
use qayoda_backend.Auth.Sessions.Claims.{issue_pair_lem}
use qayoda_backend.Auth.Sessions.Once.{revoke_family-none_live}

-- The two parts of a token that was issued are read back, if the family has no dot in it.
abbrev pub has_dot : String → Bool
has_dot String.[] = false
has_dot (String.◌∷◌ c s) = code c == b'.' || has_dot s

first_part-no_dot : (s : String) → has_dot s ≡ false → first_part s ≡ s
unfolding first_part
first_part-no_dot String.[] h = refl
first_part-no_dot (String.◌∷◌ c s) h = elim (Bool-cases (code c == b'.')) [
  | inl dot ↦ absurd (cc (rw dot at h))
  | inr other ↦ rw (other, first_part-no_dot s (rw other at h)) refl
]

first_part-dotted : (a b : String) → has_dot a ≡ false → first_part (dotted a b) ≡ a
unfolding first_part dotted
first_part-dotted String.[] b h = refl
first_part-dotted (String.◌∷◌ c a) b h = elim (Bool-cases (code c == b'.')) [
  | inl dot ↦ absurd (cc (rw dot at h))
  | inr other ↦ rw (other, first_part-dotted a b (rw other at h)) refl
]

second_part-dotted :
    (a b : String) → has_dot a ≡ false → has_dot b ≡ false → second_part (dotted a b) ≡ some b
unfolding second_part dotted
second_part-dotted String.[] b h k = ap some (first_part-no_dot b k)
second_part-dotted (String.◌∷◌ c a) b h k = elim (Bool-cases (code c == b'.')) [
  | inl dot ↦ absurd (cc (rw dot at h))
  | inr other ↦ rw (other, second_part-dotted a b (rw other at h) k) refl
]

module _ (hash : String → String) (f raw : String) (user : Account) (db : AuthDb) where
  abbrev row : RefreshToken
  row = issued_row db.now db.next_id user.id f (hash raw)

  -- The database after the pair was issued.
  abbrev issued : AuthDb
  issued = record db { next_id = db.next_id + 1; refreshes = row ∷ db.refreshes }

  none_other :
      (n : ℕ) (rows : List RefreshToken)
      → All (λ t. t.id < n) rows
      → count_if (λ t. (t.id == n) && is_live t) rows ≡ 0
  none_other n [] h = refl
  none_other n (x ∷ xs) h = ground (arith, none_other n xs h.1)

  read-issued :
      find? (has_id user.id) db.users ≡ some user
      → rotate_read hash f raw issued ≡ (ok (row, some user), issued)
  unfolding rotate_read
  read-issued known =
      let late : ltb (db.now + refresh_ttl_ms) db.now ≡ false = ground arith in
      rw ((eq_iff f f).1 refl, (eq_iff (hash raw) (hash raw)).1 refl, late, known) refl

  claim-issued :
      All (λ t. t.id < db.next_id) db.refreshes
      → is_banned user.status ≡ false
      → claim row (some user) issued ≡ (ok user, revoke_where (λ t. t.id == db.next_id) issued)
  unfolding claim claim_token check_owner
  claim-issued below fine =
      let one : count_if (λ t. (t.id == db.next_id) && is_live t) issued.refreshes ≡ 1 =
        ground (arith, none_other db.next_id db.refreshes below) in
      rw (one, fine) refl

  parts-issued :
      (new random : String)
      → str_eq f "" || str_eq raw "" ≡ false
      → All (λ t. t.id < db.next_id) db.refreshes
      → find? (has_id user.id) db.users ≡ some user
      → is_banned user.status ≡ false
      → (rotate_parts hash new random f raw issued).0
        ≡ ok (record {
          access_token = access_of db.now user;
          refresh_token = dotted f new;
          user = view_of user;
        })
  unfolding rotate_parts issue_pair insert_token
  parts-issued new random parts below known fine =
      rw (parts, read-issued known, claim-issued below fine) refl

rotate_lem :
    (hash : String → String) (new random f raw : String) (db : AuthDb)
    → has_dot f ≡ false
    → has_dot raw ≡ false
    → rotate hash new random (dotted f raw) db ≡ rotate_parts hash new random f raw db
unfolding rotate
rotate_lem hash new random f raw db plain plain_raw =
    rw (second_part-dotted f raw plain plain_raw, rotate, first_part-dotted f raw plain) refl

-- A refresh token is exchanged right after it was issued: for an account that is kept and not
-- banned, and texts without dots that are not empty, the exchange of the token's text gives a pair
-- of the same family for the same account.
pub rotate-issued :
    (hash : String → String) (raw random new random' : String) (user : Account)
    (family : Option String) (db : AuthDb)
    → has_dot (or_default family random) ≡ false
    → has_dot raw ≡ false
    → str_eq (or_default family random) "" || str_eq raw "" ≡ false
    → All (λ t. t.id < db.next_id) db.refreshes
    → find? (has_id user.id) db.users ≡ some user
    → is_banned user.status ≡ false
    → (rotate hash new random'
        (dotted (or_default family random) raw)
        (issue_pair hash raw random user family db).1).0
      ≡ ok (record {
        access_token = access_of db.now user;
        refresh_token = dotted (or_default family random) new;
        user = view_of user;
      })
rotate-issued hash raw random new random' user family db plain plain_raw parts below known fine =
    let f = or_default family random in
    rw
      (
        issue_pair_lem hash raw random user family db,
        rotate_lem hash new random' f raw (issued hash f raw user db) plain plain_raw,
      )
      (parts-issued hash f raw user db new random' parts below known fine)

-- A token whose row is revoked is a replay: the exchange raises TOKEN_REUSE_DETECTED and leaves no
-- live token in its family.
pub rotate_parts-replay :
    (hash : String → String) (new random family raw : String) (row : RefreshToken) (db : AuthDb)
    → str_eq family "" || str_eq raw "" ≡ false
    → find? (is_presented hash family raw) db.refreshes ≡ some row
    → is_some row.revoked_at ≡ true
    → ((rotate_parts hash new random family raw db).0 ≡ err token_reuse_detected)
      × (live_in family (rotate_parts hash new random family raw db).1.refreshes ≡ 0)
unfolding rotate_parts rotate_read
rotate_parts-replay hash new random family raw row db parts hit spent =
    rw (parts, hit, spent, burn_lem family db) (refl, revoke_family-none_live family db)
