-- ===== src/PriceBids/Negotiation/Steps.antt =====
-- Requests, sweeps and stale writes in any order (price-bids/price-bids.service.ts).
use qayoda_backend.Base.{ℕ, ◌≡◌, refl, false, List, [], arith}
use qayoda_backend.PriceBids.Types.{
  PriceBid, PriceBidStatus, is_pending, BidDb, ListingSummary, ListingOffer, accepted, declined,
  bid_accepted, bid_declined,
}
use qayoda_backend.PriceBids.Place.{Chat, CreatePriceBid, create, counter}
use qayoda_backend.PriceBids.Answer.{settle, accept, decline, withdraw}
use qayoda_backend.PriceBids.Sweep.{close_rows, expire_due_bids, close_open_bids_for}
use qayoda_backend.PriceBids.Negotiation.Invariant.{IsNegotiated}
use qayoda_backend.PriceBids.Negotiation.Placed.{create-Keeps}
use qayoda_backend.PriceBids.Negotiation.Answered.{
  counter-Keeps, settle-Keeps, answer-Keeps, withdraw-Keeps, close_rows-IsNegotiated,
  expire_due_bids-IsNegotiated, close_open_bids_for-IsNegotiated,
}

-- What other parts of the server write: the clock, the listings, their prices and the blocks.
abbrev pub configured : ℕ → List ListingSummary → List ListingOffer → List (ℕ × ℕ) → BidDb → BidDb
configured now listings offers blocks db = record db {
  now = now;
  listings = listings;
  offers = offers;
  blocks = blocks;
}

-- A step is a whole method, or one write of a method that read its bids earlier.
pub data Step (db : BidDb) : BidDb → Type 0 where
  place :
      (rate : ℕ) (chat : Chat) (listing bidder : ℕ) (dto : CreatePriceBid)
      → Step db (create rate chat listing bidder dto db).1
  answer_back :
      (rate : ℕ) (chat : Chat) (id user : ℕ) (dto : CreatePriceBid)
      → Step db (counter rate chat id user dto db).1
  agree : (chat : Chat) (id user : ℕ) → Step db (accept chat id user db).1
  refuse : (chat : Chat) (id user : ℕ) → Step db (decline chat id user db).1
  take_back : (id user : ℕ) → Step db (withdraw id user db).1
  write :
      (status : PriceBidStatus) (b : PriceBid)
      → is_pending status ≡ false
      → Step db (settle status b db).1
  close :
      (status : PriceBidStatus) (rows : List PriceBid)
      → is_pending status ≡ false
      → Step db (close_rows status rows db)
  expire : Step db (expire_due_bids db)
  close_listing : (listing : ℕ) → Step db (close_open_bids_for listing db)
  configure :
      (now : ℕ) (listings : List ListingSummary) (offers : List ListingOffer)
      (blocks : List (ℕ × ℕ))
      → Step db (configured now listings offers blocks db)

pub data Reach (start : BidDb) : BidDb → Type 0 where
  here : Reach start start
  next : {s t : BidDb} → Reach start s → Step s t → Reach start t

pub Step-IsNegotiated : {s t : BidDb} → Step s t → IsNegotiated s → IsNegotiated t
unfolding accept decline
Step-IsNegotiated {s} (place rate chat listing bidder dto) h =
    (create-Keeps rate chat listing bidder dto).state s h
Step-IsNegotiated {s} (answer_back rate chat id user dto) h =
    (counter-Keeps rate chat id user dto).state s h
Step-IsNegotiated {s} (agree chat id user) h =
    (answer-Keeps chat accepted bid_accepted id user refl).state s h
Step-IsNegotiated {s} (refuse chat id user) h =
    (answer-Keeps chat declined bid_declined id user refl).state s h
Step-IsNegotiated {s} (take_back id user) h = (withdraw-Keeps id user).state s h
Step-IsNegotiated {s} (write status b over) h = (settle-Keeps status b over).state s h
Step-IsNegotiated {s} (close status rows over) h = close_rows-IsNegotiated status rows s over h
Step-IsNegotiated {s} expire h = expire_due_bids-IsNegotiated s h
Step-IsNegotiated {s} (close_listing listing) h = close_open_bids_for-IsNegotiated listing s h
Step-IsNegotiated {s} (configure now listings offers blocks) h = record {
  rows = h.rows;
  single = h.single;
}

-- From a table without bids, after any methods, sweeps and writes of methods that read earlier:
-- a bidder has one pending bid on a listing at most, no one bids on their own listing, every bid
-- stands for seven days, and a bid that is over says when it was.
pub Reach-IsNegotiated : {s t : BidDb} → s.bids ≡ [] → Reach s t → IsNegotiated t
Reach-IsNegotiated e here = record { rows = rw e tt; single = λ l b. rw e (omega arith) }
Reach-IsNegotiated e (next r st) = Step-IsNegotiated st (Reach-IsNegotiated e r)
