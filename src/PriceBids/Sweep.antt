-- ===== src/PriceBids/Sweep.antt =====
-- The hourly expiry, and the bids of a listing that was closed (price-bids/price-bids.service.ts).
-- A sweep that throws is logged and changes nothing more.
use qayoda_backend.Base.{ℕ, Bool, ◌&&◌, List, [], ◌∷◌, ◌==◌, ltb, any, select, take, update_where}
use qayoda_backend.PriceBids.Types.{
  PriceBid, PriceBidStatus, declined, expired, is_pending, BidDb, NotificationKind, Notice,
  bid_declined, bid_expired,
}
use qayoda_backend.PriceBids.Rules.{author_of}
use qayoda_backend.PriceBids.Place.{left}

-- One notice for each bid, to the user that `whom` names.
unfoldable pub notify_each :
    (PriceBid → ℕ) → NotificationKind → List PriceBid → List Notice → List Notice
notify_each whom kind [] notices = notices
notify_each whom kind (b ∷ bs) notices =
    record { user_id = whom b; kind = kind; bid_id = b.id } ∷ notify_each whom kind bs notices

abbrev pub is_one_of : List PriceBid → PriceBid → Bool
is_one_of rows b = any (λ x. x.id == b.id) rows

abbrev pub is_due : ℕ → PriceBid → Bool
is_due now b = is_pending b.status && ltb b.expires_at now

-- `update({ id: In(rows) }, { status, respondedAt })`, of rows that were found before.
unfoldable pub close_rows : PriceBidStatus → List PriceBid → BidDb → BidDb
close_rows status rows db = record db {
  bids = update_where (is_one_of rows) (left status db.now) db.bids;
}

unfoldable pub expire_due_bids : BidDb → BidDb
expire_due_bids db =
    let due = take 500 (select (is_due db.now) db.bids) in
    record (close_rows expired due db) {
      notices = notify_each author_of bid_expired due db.notices;
    }

unfoldable pub close_open_bids_for : ℕ → BidDb → BidDb
close_open_bids_for listing db =
    let open_ones = select (λ b. b.listing_id == listing && is_pending b.status) db.bids in
    record (close_rows declined open_ones db) {
      notices = notify_each (λ b. b.bidder_id) bid_declined open_ones db.notices;
    }
