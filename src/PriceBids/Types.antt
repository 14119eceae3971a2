-- ===== src/PriceBids/Types.antt =====
-- The data of the negotiations: price-bids/entities, enums and constants, and the state that the
-- service reads and writes. An amount of money is its number of hundredths, a moment its number of
-- milliseconds, an id a number.
use qayoda_backend.Base.{ℕ, ◌+◌, ◌*◌, Bool, true, false, Option, List}
use qayoda_backend.Base.Actions.{ok, Action as ActionOf}

pub data PriceBidStatus : Type 0 where
  pending accepted declined countered withdrawn expired : PriceBidStatus

abbrev pub is_pending : PriceBidStatus → Bool
is_pending pending = true
is_pending _ = false

-- `SETTLED_BID_STATUSES.includes`
abbrev pub is_settled : PriceBidStatus → Bool
is_settled pending = false
is_settled accepted = true
is_settled declined = true
is_settled countered = true
is_settled withdrawn = true
is_settled expired = true

pub data PriceBidDirection : Type 0 where
  buyer seller : PriceBidDirection

pub data OfferPurpose : Type 0 where
  sale rent_monthly rent_daily : OfferPurpose

abbrev pub purpose_eq : OfferPurpose → OfferPurpose → Bool
purpose_eq sale sale = true
purpose_eq rent_monthly rent_monthly = true
purpose_eq rent_daily rent_daily = true
purpose_eq _ _ = false

-- `BID_CURRENCIES`
pub data Currency : Type 0 where
  usd uzs : Currency

-- `BID_TTL_DAYS`, in milliseconds.
abbrev pub bid_ttl_ms : ℕ
bid_ttl_ms = 7 * 86400000

abbrev pub bids_page : ℕ
bids_page = 50

abbrev pub max_bid_multiple : ℕ
max_bid_multiple = 10

abbrev pub max_bids_per_day : ℕ
max_bids_per_day = 5

pub record PriceBid : Type 0 where
  pub id : ℕ
  pub listing_id : ℕ
  pub bidder_id : ℕ
  pub owner_id : ℕ
  pub conversation_id : Option ℕ
  pub message_id : Option ℕ
  pub direction : PriceBidDirection
  pub status : PriceBidStatus
  pub purpose : OfferPurpose
  pub amount : ℕ
  pub currency : Currency
  pub amount_usd : Option ℕ
  pub asking_amount : ℕ
  pub asking_currency : Currency
  pub expires_at : ℕ
  pub responded_at : Option ℕ
  pub superseded_by_id : Option ℕ
  pub created_at : ℕ

-- What the service reads of an asking price.
pub record ListingOffer : Type 0 where
  pub listing_id : ℕ
  pub purpose : OfferPurpose
  pub price : ℕ
  pub currency : Currency
  pub is_active : Bool

-- What it reads of a listing: `open_to_bids` is that its status is ACTIVE.
pub record ListingSummary : Type 0 where
  pub id : ℕ
  pub owner_id : ℕ
  pub open_to_bids : Bool

pub data NotificationKind : Type 0 where
  bid_received bid_accepted bid_declined bid_countered bid_expired : NotificationKind

-- The user that is told, what, and of which bid.
pub record Notice : Type 0 where
  pub user_id : ℕ
  pub kind : NotificationKind
  pub bid_id : ℕ

pub record BidDb : Type 0 where
  pub now : ℕ
  pub next_id : ℕ
  pub bids : List PriceBid
  pub listings : List ListingSummary
  pub offers : List ListingOffer
  pub blocks : List (ℕ × ℕ)
  pub notices : List Notice

-- What the service raises. `unique_violation` is the database's error.
pub data BidFailure : Type 0 where
  listing_not_found listing_not_open own_listing blocked : BidFailure
  no_price no_such_price several_prices : BidFailure
  not_positive looks_like_mistake too_many_offers : BidFailure
  bid_not_found not_your_bid not_the_author own_offer already_settled offer_expired : BidFailure
  unique_violation : BidFailure

abbrev pub Action : Type 0 → Type 0
Action = ActionOf BidDb BidFailure

-- The table's next primary key: generated values are new.
abbrev pub fresh_id : Action ℕ
fresh_id db = (ok db.next_id, record db { next_id = db.next_id + 1 })
