-- ===== src/Social/BlockedAmong.antt =====
-- Blocks asked about one person and about many (blocks/blocks.service.ts).
use qayoda_backend.Base.{
  ℕ, ◌≡◌, refl, ◌&&◌, ◌||◌, ◌==◌, List, [], ◌∷◌, arith, any, select, map, Bool-cases, inl, inr,
}
use qayoda_backend.Social.Types.{UserBlock, SocialDb}
use qayoda_backend.Social.Blocks.{
  is_block, between_any, blocked_among, blocked_set, has_blocked, has, touches, other_of,
}

-- Of one row: it names `o` exactly when it stands between the two and `o` is asked about.
row_lem :
    (user o : ℕ) (others : List ℕ) (r : UserBlock)
    → (touches user others r && o == other_of user r)
      ≡ (has o others && (is_block user o r || is_block o user r))
row_lem user o others r = elim (Bool-cases (r.blocker_id == user)) [
  | inl mine ↦ elim (Bool-cases (o == r.blocked_id)) [
    | inl it ↦ let same : o ≡ r.blocked_id = ground arith in rw same (ground arith)
    | inr apart ↦ ground arith
  ]
  | inr theirs ↦ elim (Bool-cases (o == r.blocker_id)) [
    | inl it ↦ let same : o ≡ r.blocker_id = ground arith in rw same (ground arith)
    | inr apart ↦ ground arith
  ]
]

rows_lem :
    (user o : ℕ) (others : List ℕ) (rows : List UserBlock)
    → has o (map (other_of user) (select (touches user others) rows))
      ≡ (has o others && any (λ r. is_block user o r || is_block o user r) rows)
rows_lem user o others [] = ground arith
rows_lem user o others (r ∷ rows) =
    ground (arith, row_lem user o others r, rows_lem user o others rows)

own_lem :
    (user o : ℕ) (others : List ℕ) (r : UserBlock)
    → ((r.blocker_id == user && has r.blocked_id others) && o == r.blocked_id)
      ≡ (has o others && is_block user o r)
own_lem user o others r = elim (Bool-cases (o == r.blocked_id)) [
  | inl it ↦ let same : o ≡ r.blocked_id = ground arith in rw same (ground arith)
  | inr apart ↦ ground arith
]

mine_lem :
    (user o : ℕ) (others : List ℕ) (rows : List UserBlock)
    → has o (
        map
          (λ r. r.blocked_id)
          (select (λ r. r.blocker_id == user && has r.blocked_id others) rows))
      ≡ (has o others && any (is_block user o) rows)
mine_lem user o others [] = ground arith
mine_lem user o others (r ∷ rows) =
    ground (arith, own_lem user o others r, mine_lem user o others rows)

-- Of the ids that are asked about, blockedAmong gives those for which betweenAny says yes, asked about
-- one of them, and blockedSet those for which hasBlocked does.
pub blocked_among-between :
    (user o : ℕ) (others : List ℕ) (db : SocialDb)
    → (has o (blocked_among user others db) ≡ (has o others && between_any user o db))
      × (has o (blocked_set user others db) ≡ (has o others && has_blocked user o db))
unfolding blocked_among between_any blocked_set has_blocked
blocked_among-between user o [] db = (refl, refl)
blocked_among-between user o (x ∷ xs) db =
    (rows_lem user o (x ∷ xs) db.blocks, mine_lem user o (x ∷ xs) db.blocks)
