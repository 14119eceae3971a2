-- ===== src/PriceBids/Rules.antt =====
-- What a bid is measured by, and how it is shown (price-bids/price-bids.service.ts). The rate is
-- the number of hundredths of a so'm in a dollar, which shared/rates keeps.
use qayoda_backend.Base.{
  ℕ, ◌+◌, ◌-◌, ◌*◌, ◌/◌, Bool, ◌&&◌, ◌||◌, Option, none, some, List, [], ◌∷◌, ◌==◌, leb, ltb,
  if◌then◌else◌, find?, any, select, update_where, count_if,
}
use qayoda_backend.Base.Actions.{◌>>=◌, ◌>>◌, pure, raise, gets, or_raise, raise_if, modify}
use qayoda_backend.PriceBids.Types.{
  PriceBid, PriceBidStatus, expired, is_pending, is_settled, buyer, seller, OfferPurpose,
  purpose_eq, Currency, usd, uzs, ListingOffer, ListingSummary, BidDb, Action, max_bid_multiple,
  max_bids_per_day, NotificationKind, listing_not_found, blocked, no_price, no_such_price,
  several_prices, not_positive, looks_like_mistake, too_many_offers, bid_not_found, already_settled,
  offer_expired,
}

-- `RatesService.toUsd`, in hundredths, rounded half up. That service starts from a fallback rate and
-- is never without one, so the null that `toUsd` of the bids allows for does not arise.
unfoldable pub to_usd : ℕ → ℕ → Currency → ℕ
to_usd rate amount usd = amount
to_usd rate amount uzs = (200 * amount + rate) / (2 * rate)

unfoldable pub get_summary : ℕ → Action ListingSummary
get_summary id = do or_raise (← gets λ db. find? (λ l. l.id == id) db.listings) listing_not_found

-- Either direction.
abbrev pub is_between : ℕ → ℕ → ℕ × ℕ → Bool
is_between a b (x, y) = x == a && y == b || x == b && y == a

unfoldable pub assert_not_blocked : ℕ → ℕ → Action (Unit {0})
assert_not_blocked a b = do raise_if (← gets λ db. any (is_between a b) db.blocks) blocked

-- The only one of the active prices.
abbrev pub only_price : List ListingOffer → Action ListingOffer
only_price [] = raise no_price
only_price (o ∷ []) = pure o
only_price (o ∷ p ∷ os) = raise several_prices

unfoldable pub price_for : Option OfferPurpose → List ListingOffer → Action ListingOffer
price_for purpose [] = raise no_price
price_for none (o ∷ os) = only_price (o ∷ os)
price_for (some purpose) (o ∷ os) =
    or_raise (find? (λ x. purpose_eq purpose x.purpose) (o ∷ os)) no_such_price

unfoldable pub resolve_asking : ℕ → Option OfferPurpose → Action ListingOffer
resolve_asking listing purpose = do
  active ← gets λ db. select (λ o. o.listing_id == listing && o.is_active) db.offers
  price_for purpose active

unfoldable pub assert_sane_amount : ℕ → ℕ → ListingOffer → Currency → Action (Unit {0})
assert_sane_amount rate amount asking currency = do
  raise_if (amount == 0) not_positive
  let bid_usd = to_usd rate amount currency
  let ask_usd = to_usd rate asking.price asking.currency
  raise_if (ltb 0 ask_usd && ltb (ask_usd * max_bid_multiple) bid_usd) looks_like_mistake

abbrev pub is_of_day : ℕ → ℕ → ℕ → PriceBid → Bool
is_of_day now listing bidder b =
    b.listing_id == listing && b.bidder_id == bidder && ltb (now - 86400000) b.created_at

unfoldable pub assert_under_daily_limit : ℕ → ℕ → Action (Unit {0})
assert_under_daily_limit listing bidder = do
  now ← gets λ db. db.now
  recent ← gets λ db. count_if (is_of_day now listing bidder) db.bids
  raise_if (leb max_bids_per_day recent) too_many_offers

-- Who made it, which the direction decides.
abbrev pub author_of : PriceBid → ℕ
author_of b = elim b.direction [ buyer ↦ b.bidder_id | seller ↦ b.owner_id ]

abbrev pub counterparty_of : PriceBid → ℕ → ℕ
counterparty_of b user = if user == b.bidder_id then b.owner_id else b.bidder_id

unfoldable pub assert_open : PriceBid → Action (Unit {0})
assert_open b = do
  raise_if (is_settled b.status) already_settled
  now ← gets λ db. db.now
  raise_if (leb b.expires_at now) offer_expired

unfoldable pub reload : ℕ → Action PriceBid
reload id = do or_raise (← gets λ db. find? (λ b. b.id == id) db.bids) bid_not_found

-- `repo.update(id, …)`
abbrev pub update_bid : ℕ → (PriceBid → PriceBid) → BidDb → BidDb
update_bid id f db = record db { bids = update_where (λ b. b.id == id) f db.bids }

unfoldable pub notify : ℕ → NotificationKind → PriceBid → Action (Unit {0})
notify user kind b =
    modify λ db. record db {
      notices = record { user_id = user; kind = kind; bid_id = b.id } ∷ db.notices;
    }

-- A pending bid that is past its time is shown as expired.
abbrev pub shown_status : ℕ → PriceBid → PriceBidStatus
shown_status now b = if is_pending b.status && leb b.expires_at now then expired else b.status

-- `toDto`: the row, with its author and the status that is shown.
pub record BidView : Type 0 where
  pub bid : PriceBid
  pub author_id : ℕ
  pub status : PriceBidStatus

abbrev pub to_view : ℕ → PriceBid → BidView
to_view now b = record { bid = b; author_id = author_of b; status = shown_status now b }

unfoldable pub show_bid : PriceBid → Action BidView
show_bid b = do now ← gets λ db. db.now; pure (to_view now b)
