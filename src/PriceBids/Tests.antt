-- ===== src/PriceBids/Tests.antt =====
-- The theorems on negotiations at concrete inputs: one bid on one listing.
use qayoda_backend.Base.{◌≡◌, refl, true, none, some, [], ◌∷◌}
use qayoda_backend.Base.Actions.{ok, err}
use qayoda_backend.PriceBids.Types.{
  PriceBid, ListingOffer, BidDb, usd, sale, pending, expired, accepted, buyer, bid_accepted,
  bid_received, unique_violation,
}
use qayoda_backend.PriceBids.Rules.{
  reload, assert_open, get_summary, show_bid, notify, to_view, resolve_asking, price_for,
  assert_sane_amount, to_usd, assert_not_blocked, assert_under_daily_limit,
}
use qayoda_backend.PriceBids.Place.{
  Chat, CreatePriceBid, announce, announce_in, open_thread, left, load_respondable, counter, create,
  check_create, replace_bid, insert_bid,
}
use qayoda_backend.PriceBids.Answer.{settle, answer}
use qayoda_backend.PriceBids.Sweep.{expire_due_bids}
use qayoda_backend.PriceBids.Negotiation.Invariant.{IsNegotiated}
use qayoda_backend.PriceBids.Negotiation.Steps.{Reach, here, next, place, Reach-IsNegotiated}
use qayoda_backend.PriceBids.Negotiation.Respondable.{IsRespondable}
use qayoda_backend.PriceBids.Negotiation.Answers.{counter-refused, answer-IsRespondable}
use qayoda_backend.PriceBids.Negotiation.Expiry.{shown, expire_due_bids-shown}

abbrev asking : ListingOffer
asking = record {
  listing_id = 3;
  purpose = sale;
  price = 5000000;
  currency = usd;
  is_active = true;
}

abbrev start : BidDb
start = record {
  now = 1000;
  next_id = 0;
  bids = [];
  listings = record { id = 3; owner_id = 8; open_to_bids = true } ∷ [];
  offers = asking ∷ [];
  blocks = [];
  notices = [];
}

-- A chat that takes no messages.
abbrev silent : Chat
silent = record { send = λ _ _ _. none; start = λ _ _ _. none }

abbrev offer : CreatePriceBid
offer = record { amount = 4500000; currency = none; purpose = none }

abbrev bid : PriceBid
bid = record {
  id = 0;
  listing_id = 3;
  bidder_id = 7;
  owner_id = 8;
  conversation_id = none;
  message_id = none;
  direction = buyer;
  status = pending;
  purpose = sale;
  amount = 4500000;
  currency = usd;
  amount_usd = some 4500000;
  asking_amount = 5000000;
  asking_currency = usd;
  expires_at = 604801000;
  responded_at = none;
  superseded_by_id = none;
  created_at = 1000;
}

abbrev placed : BidDb
placed = record start {
  next_id = 1;
  bids = bid ∷ [];
  notices = record { user_id = 8; kind = bid_received; bid_id = 0 } ∷ [];
}

placed-Reach : Reach start placed
unfolding create check_create get_summary assert_not_blocked resolve_asking price_for
    assert_sane_amount to_usd assert_under_daily_limit replace_bid insert_bid announce announce_in
    open_thread notify reload show_bid
placed-Reach = next here (place 1000000 silent 3 7 offer)

Reach-IsNegotiated_example : IsNegotiated placed
Reach-IsNegotiated_example = Reach-IsNegotiated refl placed-Reach

seller_loads : load_respondable 0 8 placed ≡ (ok bid, placed)
unfolding load_respondable reload assert_open get_summary
seller_loads = refl

asked : resolve_asking 3 (some sale) placed ≡ (ok asking, placed)
unfolding resolve_asking price_for
asked = refl

sane : assert_sane_amount 1000000 4500000 asking usd placed ≡ (ok tt, placed)
unfolding assert_sane_amount to_usd
sane = refl

counter-refused_example : counter 1000000 silent 0 8 offer placed ≡ (err unique_violation, placed)
counter-refused_example =
    counter-refused 1000000 silent 0 8 offer placed bid asking seller_loads asked sane

abbrev agreed : BidDb
agreed = (answer silent accepted bid_accepted 0 8 placed).1

agreement :
    answer silent accepted bid_accepted 0 8 placed
    ≡ (ok (to_view 1000 (left accepted 1000 bid)), agreed)
unfolding answer load_respondable reload assert_open get_summary settle announce announce_in
    open_thread notify show_bid
agreement = refl

answer-IsRespondable_example :
    (b : PriceBid) × IsRespondable 0 8 b placed
    × ((to_view 1000 (left accepted 1000 bid)).bid ≡ left accepted 1000 b)
answer-IsRespondable_example =
    answer-IsRespondable silent accepted bid_accepted 0 8 placed agreed
      (to_view 1000 (left accepted 1000 bid)) agreement

-- Eight days later nobody has answered.
abbrev forgotten : BidDb
forgotten = record placed { now = 691201000 }

expire_due_bids-shown_example : shown 691201000 (expire_due_bids forgotten).bids ≡ expired ∷ []
expire_due_bids-shown_example = expire_due_bids-shown forgotten ((λ _. refl, tt), tt)
