-- ===== src/PriceBids/Negotiation/Respondable.antt =====
-- Who may answer a bid, and what an answer does (price-bids/price-bids.service.ts).
use qayoda_backend.Base.{
  ℕ, ◌<◌, ◌≡◌, sym, ap, true, false, not, some, arith, ◌==◌, ◌&&◌, ◌||◌, find?, Bool-cases,
  Option-cases, inl, inr, leb,
}
use qayoda_backend.Base.Actions.{Result, ok, err}
use qayoda_backend.PriceBids.Types.{PriceBid, is_settled, BidDb, BidFailure, ListingSummary}
use qayoda_backend.PriceBids.Rules.{reload, author_of, assert_open, get_summary}
use qayoda_backend.PriceBids.Place.{load_respondable}

-- The user is the other side of a live bid on an open listing.
pub record IsRespondable (id user : ℕ) (b : PriceBid) (db : BidDb) : Type 0 where
  pub found : find? (λ x. x.id == id) db.bids ≡ some b
  pub party : (b.bidder_id == user) || (b.owner_id == user) ≡ true
  pub other : author_of b == user ≡ false
  pub live : is_settled b.status ≡ false
  pub in_time : db.now < b.expires_at
  pub listing : ListingSummary
  pub listed : find? (λ l. l.id == b.listing_id) db.listings ≡ some listing
  pub open_still : listing.open_to_bids ≡ true

module _ (id user : ℕ) (db : BidDb) where
  -- What `loadRespondable` gives.
  pub data IsLoad : Result BidFailure PriceBid × BidDb → Type 0 where
    refused : (e : BidFailure) → IsLoad (err e, db)
    loaded : (b : PriceBid) → IsRespondable id user b db → IsLoad (ok b, db)

  pub load_respondable-IsLoad : IsLoad (load_respondable id user db)
  unfolding load_respondable reload assert_open get_summary
  load_respondable-IsLoad = elim (Option-cases (find? (λ x. x.id == id) db.bids)) [
    | inl missing ↦ rw missing (refused _)
    | inr (b, found) ↦ elim (Bool-cases (not (b.bidder_id == user) && not (b.owner_id == user))) [
      | inl stranger ↦ rw (found, stranger) (refused _)
      | inr party ↦ elim (Bool-cases (author_of b == user)) [
        | inl own ↦ rw (found, party, own) (refused _)
        | inr other ↦ elim (Bool-cases (is_settled b.status)) [
          | inl over ↦ rw (found, party, other, over) (refused _)
          | inr live ↦ elim (Bool-cases (leb b.expires_at db.now)) [
            | inl late ↦ rw (found, party, other, live, late) (refused _)
            | inr in_time ↦ elim (Option-cases (find? (λ l. l.id == b.listing_id) db.listings)) [
              | inl gone ↦ rw (found, party, other, live, in_time, gone) (refused _)
              | inr (l, listed) ↦ elim (Bool-cases l.open_to_bids) [
                | inr closed ↦ rw (found, party, other, live, in_time, listed, closed) (refused _)
                | inl open_still ↦
                    rw (found, party, other, live, in_time, listed, open_still)
                      (loaded b (record {
                        found = found;
                        party = ground arith;
                        other = other;
                        live = live;
                        in_time = ground arith;
                        listing = l;
                        listed = listed;
                        open_still = open_still;
                      }))
              ]
            ]
          ]
        ]
      ]
    ]
  ]

pub loaded-IsRespondable :
    (id user : ℕ) (db t : BidDb) (b : PriceBid)
    → load_respondable id user db ≡ (ok b, t)
    → IsRespondable id user b db × (t ≡ db)
loaded-IsRespondable id user db t b e = go _ e (load_respondable-IsLoad id user db)
  where
    go :
        (r : Result BidFailure PriceBid × BidDb)
        → r ≡ (ok b, t)
        → IsLoad id user db r
        → IsRespondable id user b db × (t ≡ db)
    go _ same (refused x) = absurd (cc same)
    go _ same (loaded x k) =
        let row : x ≡ b = cc same in
        let last : db ≡ t = ap (λ q. q.1) same in (rw (← row) k, sym last)
