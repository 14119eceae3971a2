-- ===== src/PriceBids/Answer.antt =====
-- Answers to a bid, and the lists of bids (price-bids/price-bids.service.ts).
use qayoda_backend.Base.{
  ℕ, Bool, true, false, not, ◌&&◌, ◌||◌, Option, none, some, List, ◌==◌, leb, or_default, any,
  select, sort_by, take, drop, length, map,
}
use qayoda_backend.Base.Actions.{◌>>=◌, ◌>>◌, pure, gets, raise_if, modify}
use qayoda_backend.PriceBids.Types.{
  PriceBid, PriceBidStatus, pending, accepted, declined, countered, withdrawn, expired, BidDb,
  Action, NotificationKind, bid_accepted, bid_declined, bids_page, not_your_bid, not_the_author,
}
use qayoda_backend.PriceBids.Rules.{
  get_summary, author_of, counterparty_of, assert_open, reload, update_bid, notify, BidView,
  to_view, show_bid,
}
use qayoda_backend.PriceBids.Place.{Chat, announce, left, load_respondable}

-- The write of an answer: by the bid's key alone.
unfoldable pub settle : PriceBidStatus → PriceBid → Action (Unit {0})
settle status b = modify λ db. update_bid b.id (left status db.now) db

module _ (chat : Chat) where
  -- `accept` and `decline`, which differ in the status and the notification.
  unfoldable pub answer : PriceBidStatus → NotificationKind → ℕ → ℕ → Action BidView
  answer status kind id user = do
    b ← load_respondable id user
    settle status b
    settled ← reload b.id
    modify (announce chat settled user false)
    notify (counterparty_of settled user) kind settled
    show_bid settled

  unfoldable pub accept : ℕ → ℕ → Action BidView
  accept = answer accepted bid_accepted

  unfoldable pub decline : ℕ → ℕ → Action BidView
  decline = answer declined bid_declined

unfoldable pub withdraw : ℕ → ℕ → Action BidView
withdraw id user = do
  b ← reload id
  raise_if (not (author_of b == user)) not_the_author
  assert_open b
  settle withdrawn b
  (do shown ← reload b.id; show_bid shown)

-- `ListPriceBidsDto`
pub record ListPriceBids : Type 0 where
  pub status : Option PriceBidStatus
  pub limit : Option ℕ
  pub offset : Option ℕ

abbrev pub status_eq : PriceBidStatus → PriceBidStatus → Bool
status_eq pending pending = true
status_eq accepted accepted = true
status_eq declined declined = true
status_eq countered countered = true
status_eq withdrawn withdrawn = true
status_eq expired expired = true
status_eq _ _ = false

abbrev pub has_status : Option PriceBidStatus → PriceBid → Bool
has_status none b = true
has_status (some s) b = status_eq s b.status

pub record BidPage : Type 0 where
  pub total : ℕ
  pub items : List BidView

-- `findAndCount`, the newest first.
unfoldable pub page_of : (PriceBid → Bool) → ListPriceBids → BidDb → BidPage
page_of t q db =
    let rows =
      sort_by (λ a b. leb b.created_at a.created_at)
        (select (λ b. t b && has_status q.status b) db.bids) in
    record {
      total = length rows;
      items =
          map (to_view db.now)
            (take (or_default q.limit bids_page) (drop (or_default q.offset 0) rows));
    }

unfoldable pub list_for_listing : ℕ → ℕ → ListPriceBids → Action BidPage
list_for_listing listing user q = do
  l ← get_summary listing
  gets (page_of (λ b. b.listing_id == listing && (l.owner_id == user || b.bidder_id == user)) q)

-- The rows of `listMine`, without the titles of their listings.
unfoldable pub list_mine : ℕ → ListPriceBids → Action BidPage
list_mine user q = gets (page_of (λ b. b.bidder_id == user || b.owner_id == user) q)

unfoldable pub get_one : ℕ → ℕ → Action BidView
get_one id user = do
  b ← reload id
  raise_if (not (b.bidder_id == user) && not (b.owner_id == user)) not_your_bid
  show_bid b

-- The rows come in the table's order.
unfoldable pub get_many_for_user : List ℕ → ℕ → Action (List BidView)
get_many_for_user ids user = do
  now ← gets λ db. db.now
  rows ← gets λ db. select (λ b. any (λ i. i == b.id) (take 100 ids)) db.bids
  pure (map (to_view now) (select (λ b. b.bidder_id == user || b.owner_id == user) rows))
