-- ===== src/PriceBids/Negotiation/Answers.antt =====
-- What an acceptance and a counter-offer do (price-bids/price-bids.service.ts).
use qayoda_backend.Base.{
  ℕ, ◌+◌, ◌≡◌, refl, sym, ap, ◌∙◌, true, some, arith, any, ◌==◌, ==_iff, find?, find?-passes,
  find?-updated, find?-some_test, inl, inr, if◌then◌else◌, or_default,
}
use qayoda_backend.Base.Actions.{Result, Result-cases, ok, err}
use qayoda_backend.PriceBids.Types.{
  Currency, PriceBidDirection, seller, buyer, PriceBid, PriceBidStatus, is_pending, BidDb,
  BidFailure, ListingOffer, NotificationKind, unique_violation,
}
use qayoda_backend.PriceBids.Rules.{
  reload, resolve_asking, assert_sane_amount, show_bid, notify, BidView,
}
use qayoda_backend.PriceBids.Place.{
  Chat, counter_row, CreatePriceBid, is_open_of, left, load_respondable, counter,
  replace_by_counter, insert_bid,
}
use qayoda_backend.PriceBids.Answer.{settle, answer}
use qayoda_backend.PriceBids.Negotiation.Respondable.{IsRespondable, loaded-IsRespondable}

-- A bid that may be answered is in the way of the index.
respondable-open :
    (id user : ℕ) (b : PriceBid) (db : BidDb)
    → IsRespondable id user b db
    → any (is_open_of b.listing_id b.bidder_id) db.bids ≡ true
respondable-open id user b db h =
    let pending_still : is_pending b.status ≡ true = ground (arith, h.live) in
    find?-passes (λ x. x.id == id) (is_open_of b.listing_id b.bidder_id) db.bids b h.found
      (rw
        (
          (==_iff b.listing_id b.listing_id).1 refl,
          (==_iff b.bidder_id b.bidder_id).1 refl,
          pending_still,
        )
        refl)

replace_by_counter-refused :
    (row : ℕ → ℕ → PriceBid) (previous : PriceBid) (db : BidDb)
    → any (is_open_of (row db.now db.next_id).listing_id (row db.now db.next_id).bidder_id) db.bids
      ≡ true
    → replace_by_counter row previous db
      ≡ (err unique_violation, record db { next_id = db.next_id + 1 })
unfolding replace_by_counter insert_bid
replace_by_counter-refused row previous db clash = rw clash refl

counter_row-refused :
    (rate : ℕ) (previous : PriceBid) (direction : PriceBidDirection) (asking : ListingOffer)
    (amount : ℕ) (currency : Currency) (db : BidDb)
    → any (is_open_of previous.listing_id previous.bidder_id) db.bids ≡ true
    → replace_by_counter (counter_row rate previous direction asking amount currency) previous db
      ≡ (err unique_violation, record db { next_id = db.next_id + 1 })
unfolding counter_row
counter_row-refused rate previous direction asking amount currency db clash =
    replace_by_counter-refused _ previous db clash

-- No counter-offer is placed: a bid that may be answered is pending, so the row of the new number,
-- which is written first, meets the unique index on pending bids. After all checks have passed the
-- method raises the database's error and the table is as it was.
pub counter-refused :
    (rate : ℕ) (chat : Chat) (id user : ℕ) (dto : CreatePriceBid) (db : BidDb) (previous : PriceBid)
    (asking : ListingOffer)
    → load_respondable id user db ≡ (ok previous, db)
    → resolve_asking previous.listing_id (some previous.purpose) db ≡ (ok asking, db)
    → assert_sane_amount rate dto.amount asking (or_default dto.currency previous.currency) db
      ≡ (ok tt, db)
    → counter rate chat id user dto db ≡ (err unique_violation, db)
unfolding counter
counter-refused rate chat id user dto db previous asking loaded priced sane =
    let k = (loaded-IsRespondable id user db db previous loaded).0 in
    let refused =
      counter_row-refused rate previous (if user == previous.owner_id then seller else buyer) asking
        dto.amount (or_default dto.currency previous.currency) db
        (respondable-open id user previous db k) in
    rw (loaded, priced, sane, refused) refl

abbrev shown_bid : PriceBid → Result BidFailure BidView → PriceBid
shown_bid b (ok v) = v.bid
shown_bid b (err x) = b

-- An answer that succeeds was given by the other side of a pending bid that has not run out, on a
-- listing that is still open, and shows the bid with the answer and its time.
pub answer-IsRespondable :
    (chat : Chat) (status : PriceBidStatus) (kind : NotificationKind) (id user : ℕ) (db t : BidDb)
    (v : BidView)
    → answer chat status kind id user db ≡ (ok v, t)
    → (b : PriceBid) × IsRespondable id user b db × (v.bid ≡ left status db.now b)
unfolding answer settle reload notify show_bid
answer-IsRespondable chat status kind id user db t v e =
    elim (Result-cases (load_respondable id user db)) [
      | inr (x, s, refused) ↦ absurd (cc (rw refused at e))
      | inl (b, s, loaded) ↦
          let k = loaded-IsRespondable id user db s b loaded in
          let read : load_respondable id user db ≡ (ok b, db) = rw k.1 at loaded in
          let key : b.id ≡ id =
            (==_iff b.id id).0 (find?-some_test (λ x. x.id == id) db.bids b k.0.found) in
          let there : find? (λ x. x.id == b.id) db.bids ≡ some b =
            ap (λ n. find? (λ x. x.id == n) db.bids) key ∙ k.0.found in
          let row = rw ((==_iff b.id b.id).1 refl) at (
            find?-updated (λ x. x.id == b.id) (λ x. x.id == b.id) (left status db.now) db.bids b
              (λ y. refl) there) in
          (b, k.0, sym (ap (λ q. shown_bid b q.0) (rw (read, row) at e)))
    ]
