-- ===== src/PriceBids/Place.antt =====
-- A bid and a counter-offer (price-bids/price-bids.service.ts). The chat is a parameter: what its
-- calls return, or `none` if they throw.
use qayoda_backend.Base.{
  ℕ, ◌+◌, Bool, true, not, ◌&&◌, Option, none, some, ◌∷◌, ◌==◌, if◌then◌else◌, or_default, any,
  update_where,
}
use qayoda_backend.Base.Actions.{◌>>=◌, ◌>>◌, pure, gets, raise_if, modify, transaction}
use qayoda_backend.PriceBids.Types.{
  PriceBid, PriceBidStatus, pending, withdrawn, countered, is_pending, PriceBidDirection, buyer,
  seller, OfferPurpose, Currency, ListingOffer, BidDb, Action, fresh_id, bid_ttl_ms, bid_received,
  bid_countered, listing_not_open, own_listing, unique_violation, not_your_bid, own_offer,
}
use qayoda_backend.PriceBids.Rules.{
  get_summary, assert_not_blocked, resolve_asking, assert_sane_amount, assert_under_daily_limit,
  to_usd, author_of, counterparty_of, assert_open, reload, update_bid, notify, BidView, show_bid,
}

-- `CreatePriceBidDto`, less the note.
pub record CreatePriceBid : Type 0 where
  pub amount : ℕ
  pub currency : Option Currency
  pub purpose : Option OfferPurpose

pub record Chat : Type 0 where
  -- conversation, sender and the bid that is attached: the message
  pub send : ℕ → ℕ → Option ℕ → Option ℕ
  -- buyer, listing and the bid: the conversation and the message
  pub start : ℕ → ℕ → Option ℕ → Option (ℕ × ℕ)

abbrev pub in_message : Bool → ℕ → PriceBid → PriceBid
in_message attach m b = if attach then record b { message_id = some m } else b

-- A message in the thread that the bid has.
unfoldable pub say : Chat → PriceBid → ℕ → Bool → ℕ → BidDb → BidDb
say chat b sender attach c db = elim (chat.send c sender (if attach then some b.id else none)) [
  | none ↦ db
  | some m ↦ update_bid b.id (in_message attach m) db
]

-- No thread yet: only the buyer can open one.
unfoldable pub open_thread : Chat → PriceBid → ℕ → Bool → BidDb → BidDb
open_thread chat b sender attach db =
    if not (sender == b.bidder_id)
    then db
    else elim (chat.start b.bidder_id b.listing_id (if attach then some b.id else none)) [
      | none ↦ db
      | some (c, m) ↦
          update_bid b.id (λ x. in_message attach m (record x { conversation_id = some c })) db
    ]

unfoldable pub announce_in : Chat → PriceBid → ℕ → Bool → Option ℕ → BidDb → BidDb
announce_in chat b sender attach (some c) = say chat b sender attach c
announce_in chat b sender attach none = open_thread chat b sender attach

unfoldable pub announce : Chat → PriceBid → ℕ → Bool → BidDb → BidDb
announce chat b sender attach = announce_in chat b sender attach b.conversation_id

-- The partial unique index: one pending bid of a bidder on a listing.
abbrev pub is_open_of : ℕ → ℕ → PriceBid → Bool
is_open_of listing bidder b =
    b.listing_id == listing && b.bidder_id == bidder && is_pending b.status

-- `repo.save(repo.create(…))` of a pending bid.
unfoldable pub insert_bid : PriceBid → Action (Unit {0})
insert_bid b = do
  raise_if (← gets λ db. any (is_open_of b.listing_id b.bidder_id) db.bids) unique_violation
  modify λ db. record db { bids = b ∷ db.bids }

abbrev pub left : PriceBidStatus → ℕ → PriceBid → PriceBid
left status now b = record b { status = status; responded_at = some now }

-- The row of a new number on a listing.
abbrev pub bid_row :
    ℕ → ℕ → ℕ → ℕ → ℕ → ℕ → Option ℕ → PriceBidDirection → ListingOffer → ℕ → Currency → PriceBid
bid_row rate now id listing bidder owner conversation direction asking amount currency = record {
  id = id;
  listing_id = listing;
  bidder_id = bidder;
  owner_id = owner;
  conversation_id = conversation;
  message_id = none;
  direction = direction;
  status = pending;
  purpose = asking.purpose;
  amount = amount;
  currency = currency;
  amount_usd = some (to_usd rate amount currency);
  asking_amount = asking.price;
  asking_currency = asking.currency;
  expires_at = now + bid_ttl_ms;
  responded_at = none;
  superseded_by_id = none;
  created_at = now;
}

-- The bidder's open bid on the listing steps aside, and the new one is written.
unfoldable pub replace_bid : (ℕ → ℕ → PriceBid) → ℕ → ℕ → Action PriceBid
replace_bid row listing bidder = do
  modify λ db. record db {
    bids = update_where (is_open_of listing bidder) (left withdrawn db.now) db.bids;
  }
  id ← fresh_id
  now ← gets λ db. db.now
  insert_bid (row now id)
  pure (row now id)

-- The new number is written, then the bid that it answers is marked.
unfoldable pub replace_by_counter : (ℕ → ℕ → PriceBid) → PriceBid → Action PriceBid
replace_by_counter row previous = do
  id ← fresh_id
  now ← gets λ db. db.now
  insert_bid (row now id)
  modify (
      update_bid previous.id
        λ b. record b { status = countered; responded_at = some now; superseded_by_id = some id })
  pure (row now id)

-- The row of the new number that answers a bid.
unfoldable pub counter_row :
    ℕ → PriceBid → PriceBidDirection → ListingOffer → ℕ → Currency → ℕ → ℕ → PriceBid
counter_row rate previous direction asking amount currency now id =
    record (bid_row rate now id previous.listing_id previous.bidder_id previous.owner_id
      previous.conversation_id direction asking amount currency) { purpose = previous.purpose }

-- `loadRespondable`
unfoldable pub load_respondable : ℕ → ℕ → Action PriceBid
load_respondable id user = do
  b ← reload id
  raise_if (not (b.bidder_id == user) && not (b.owner_id == user)) not_your_bid
  raise_if (author_of b == user) own_offer
  assert_open b
  listing ← get_summary b.listing_id
  raise_if (not listing.open_to_bids) listing_not_open
  pure b

module _ (rate : ℕ) (chat : Chat) where
  -- What `create` checks: the listing's owner and the asking price.
  unfoldable pub check_create : ℕ → ℕ → CreatePriceBid → Action (ℕ × ListingOffer)
  check_create listing bidder dto = do
    l ← get_summary listing
    raise_if (not l.open_to_bids) listing_not_open
    raise_if (l.owner_id == bidder) own_listing
    assert_not_blocked bidder l.owner_id
    asking ← resolve_asking listing dto.purpose
    assert_sane_amount rate dto.amount asking (or_default dto.currency asking.currency)
    assert_under_daily_limit listing bidder
    pure (l.owner_id, asking)

  unfoldable pub create : ℕ → ℕ → CreatePriceBid → Action BidView
  create listing bidder dto = do
    found ← check_create listing bidder dto
    let currency : Currency = or_default dto.currency found.1.currency
    b ← transaction (
        replace_bid
          (λ now id.
            bid_row rate now id listing bidder found.0 none buyer found.1 dto.amount currency)
          listing bidder)
    modify (announce chat b bidder true)
    notify found.0 bid_received b
    (do shown ← reload b.id; show_bid shown)

  unfoldable pub counter : ℕ → ℕ → CreatePriceBid → Action BidView
  counter id user dto = do
    previous ← load_respondable id user
    asking ← resolve_asking previous.listing_id (some previous.purpose)
    let currency : Currency = or_default dto.currency previous.currency
    assert_sane_amount rate dto.amount asking currency
    let direction : PriceBidDirection = if user == previous.owner_id then seller else buyer
    b ← transaction (
        replace_by_counter (counter_row rate previous direction asking dto.amount currency)
          previous)
    modify (announce chat b user true)
    notify (counterparty_of b user) bid_countered b
    (do shown ← reload b.id; show_bid shown)
