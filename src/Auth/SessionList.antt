-- ===== src/Auth/SessionList.antt =====
-- `listSessions` and `familyOf` (auth/services/token.service.ts): the signed-in devices, one entry
-- for each family of live tokens.
use qayoda_backend.Base.{
  ℕ, Bool, false, ◌&&◌, Option, String, List, [], ◌∷◌, ◌==◌, ltb, leb, if◌then◌else◌, str_eq,
  is_text, select, sort_by, map,
}
use qayoda_backend.Auth.Types.{RefreshToken}
use qayoda_backend.Auth.Store.{AuthDb}
use qayoda_backend.Auth.Tokens.{is_live}

pub record Session : Type 0 where
  pub family_id : String
  pub started_at : ℕ
  pub last_seen_at : ℕ
  pub expires_at : ℕ
  pub current : Bool

abbrev min_of : ℕ → ℕ → ℕ
min_of a b = if leb a b then a else b

abbrev max_of : ℕ → ℕ → ℕ
max_of a b = if leb a b then b else a

-- The `MIN` and the `MAX`es of a group with one more row.
abbrev joined : RefreshToken → Session → Session
joined t s = record s {
  started_at = min_of t.created_at s.started_at;
  last_seen_at = max_of t.created_at s.last_seen_at;
  expires_at = max_of t.expires_at s.expires_at;
}

abbrev pub session_of : RefreshToken → Session
session_of t = record {
  family_id = t.family_id;
  started_at = t.created_at;
  last_seen_at = t.created_at;
  expires_at = t.expires_at;
  current = false;
}

-- A row put in its group.
unfoldable pub put : RefreshToken → List Session → List Session
put t [] = session_of t ∷ []
put t (s ∷ ss) =
    let rest = put t ss in if str_eq t.family_id s.family_id then joined t s ∷ ss else s ∷ rest

-- `GROUP BY t.family_id`
unfoldable pub grouped : List RefreshToken → List Session
grouped [] = []
grouped (t ∷ ts) = put t (grouped ts)

abbrev pub is_listed : ℕ → ℕ → RefreshToken → Bool
is_listed now user t = t.user_id == user && is_live t && ltb now t.expires_at

unfoldable pub list_sessions : ℕ → Option String → AuthDb → List Session
list_sessions user current_family db =
    map {A = Session} (λ s. record s { current = is_text s.family_id current_family })
      (sort_by (λ a b. leb b.last_seen_at a.last_seen_at)
        (grouped (select (is_listed db.now user) db.refreshes)))
