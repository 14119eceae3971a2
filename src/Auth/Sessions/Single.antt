-- ===== src/Auth/Sessions/Single.antt =====
-- A session has one live refresh token at most, whatever requests run at once
-- (auth/services/token.service.ts).
use qayoda_backend.Base.{ℕ, ◌+◌, ◌≤◌, ◌<◌, ◌≡◌, refl, String, List, [], ◌∷◌, arith, All, All-map}
use qayoda_backend.Auth.Types.{RefreshToken}
use qayoda_backend.Auth.Store.{AuthDb}
use qayoda_backend.Auth.Tokens.{issued_row}
use qayoda_backend.Auth.Sessions.Live.{live_in, IsOfFamily}
use qayoda_backend.Auth.Sessions.Calm.{IsCalm}
use qayoda_backend.Auth.Sessions.Runs.{Run}

abbrev pub Agrees : List RefreshToken → RefreshToken → Type 0
Agrees rows x = IsOfFamily x.id x.family_id rows

-- Every key is below the next one, rows of one key have one family, and a family has one live
-- token or one rotation between its claim and its new pair, or neither.
pub record IsSingle (r : Run) : Type 0 where
  pub below : All (λ t. t.id < r.db.next_id) r.db.refreshes
  pub agree : All (Agrees r.db.refreshes) r.db.refreshes
  pub read_below : All (λ x. x.id < r.db.next_id) r.reads
  pub read_agree : All (Agrees r.db.refreshes) r.reads
  pub single : (f : String) → live_in f r.db.refreshes + r.pending f ≤ 1

abbrev pub with_db : Run → AuthDb → Run
with_db r db = record r { db = db }

pub calm-Agrees :
    (s t : AuthDb) → IsCalm s t → (x : RefreshToken) → Agrees s.refreshes x → Agrees t.refreshes x
calm-Agrees s t h x = h.rows (λ q. q.id ≡ x.id → q.family_id ≡ x.family_id) (λ q now k. k)

pub calm-IsSingle : (r : Run) (t : AuthDb) → IsCalm r.db t → IsSingle r → IsSingle (with_db r t)
calm-IsSingle r t c h = record {
  below = rw c.ids (c.rows (λ q. q.id < r.db.next_id) (λ q now k. k) h.below);
  agree =
      All-map (Agrees r.db.refreshes) (Agrees t.refreshes) t.refreshes (calm-Agrees r.db t c)
        (c.rows (Agrees r.db.refreshes) (λ q now k. k) h.agree);
  read_below = rw c.ids h.read_below;
  read_agree =
      All-map (Agrees r.db.refreshes) (Agrees t.refreshes) r.reads (calm-Agrees r.db t c)
        h.read_agree;
  single = λ f. ground (arith, c.live f, h.single f);
}

-- A row with a new key agrees with every row that was there or was read.
new-Agrees :
    (n : ℕ) (row x : RefreshToken) (rows : List RefreshToken)
    → row.id ≡ n
    → x.id < n
    → Agrees rows x
    → Agrees (row ∷ rows) x
new-Agrees n row x rows e lt h = (λ same. absurd (omega arith), h)

old-Agrees :
    (n : ℕ) (row : RefreshToken) (rows : List RefreshToken)
    → row.id ≡ n
    → All (λ t. t.id < n) rows
    → Agrees rows row
old-Agrees n row [] e h = tt
old-Agrees n row (x ∷ xs) e h = (λ same. absurd (omega arith), old-Agrees n row xs e h.1)

new-all :
    (n : ℕ) (row : RefreshToken) (rows xs : List RefreshToken)
    → row.id ≡ n
    → All (λ t. t.id < n) xs
    → All (Agrees rows) xs
    → All (Agrees (row ∷ rows)) xs
new-all n row rows [] e h k = tt
new-all n row rows (x ∷ xs) e h k =
    (new-Agrees n row x rows e h.0 k.0, new-all n row rows xs e h.1 k.1)

below-suc : (n : ℕ) (xs : List RefreshToken) → All (λ t. t.id < n) xs → All (λ t. t.id < n + 1) xs
below-suc n xs = All-map (λ t. t.id < n) (λ t. t.id < n + 1) xs (λ x h. omega arith)

-- The issue of a pair, whatever then counts as pending.
pub issued-IsSingle :
    (r : Run) (user : ℕ) (family token_hash : String) (pending : String → ℕ)
    → ((f : String)
        → live_in f (issued_row r.db.now r.db.next_id user family token_hash ∷ r.db.refreshes)
            + pending f
          ≤ 1)
    → IsSingle r
    → IsSingle (record r {
      db = record r.db {
        next_id = r.db.next_id + 1;
        refreshes = issued_row r.db.now r.db.next_id user family token_hash ∷ r.db.refreshes;
      };
      pending = pending;
    })
issued-IsSingle r user family token_hash pending one h =
    let row = issued_row r.db.now r.db.next_id user family token_hash in
    record {
      below = (omega arith, below-suc r.db.next_id r.db.refreshes h.below);
      agree = (
        (λ _. refl, old-Agrees r.db.next_id row r.db.refreshes refl h.below),
        new-all r.db.next_id row r.db.refreshes r.db.refreshes refl h.below h.agree,
      );
      read_below = below-suc r.db.next_id r.reads h.read_below;
      read_agree = new-all r.db.next_id row r.db.refreshes r.reads refl h.read_below h.read_agree;
      single = one;
    }
