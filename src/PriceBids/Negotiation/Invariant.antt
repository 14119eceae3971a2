-- ===== src/PriceBids/Negotiation/Invariant.antt =====
-- The invariant of the table of bids, and the writes that keep it
-- (price-bids/price-bids.service.ts).
use qayoda_backend.Base.{
  ℕ, ◌+◌, ◌≤◌, ◌≡◌, ◌≢◌, refl, Bool, true, false, Option, none, some, arith, All, any, any-count,
  ◌==◌, ==_iff, is_some, Option-cases, count_if, count_if-update_where, update_where,
  update_where-keeps, Bool-cases, inl, inr, if◌then◌else◌,
}
use qayoda_backend.PriceBids.Types.{
  PriceBid, PriceBidStatus, is_pending, is_settled, BidDb, bid_ttl_ms,
}
use qayoda_backend.PriceBids.Place.{
  Chat, say, open_thread, announce_in, announce, in_message, is_open_of, insert_bid, left,
}

-- A bid is between two people and stands for seven days, and one that has left PENDING says when.
pub record IsBid (b : PriceBid) : Type 0 where
  pub apart : b.bidder_id ≢ b.owner_id
  pub stands : b.expires_at ≡ b.created_at + bid_ttl_ms
  pub answered : is_settled b.status ≡ true → is_some b.responded_at ≡ true

pub record IsNegotiated (db : BidDb) : Type 0 where
  pub rows : All IsBid db.bids
  pub single : (listing bidder : ℕ) → count_if (is_open_of listing bidder) db.bids ≤ 1

-- An update that keeps the rows bids and makes none pending.
pub updated-IsNegotiated :
    (t : PriceBid → Bool) (f : PriceBid → PriceBid) (db : BidDb)
    → ((b : PriceBid) → IsBid b → IsBid (f b))
    → ((listing bidder : ℕ) (b : PriceBid)
        → is_open_of listing bidder (f b) ≡ true
        → is_open_of listing bidder b ≡ true)
    → IsNegotiated db
    → IsNegotiated (record db { bids = update_where t f db.bids })
updated-IsNegotiated t f db keeps closes h = record {
  rows = update_where-keeps IsBid t f db.bids keeps h.rows;
  single = λ l b. ground (
    arith,
    h.single l b,
    count_if-update_where (is_open_of l b) t f db.bids (λ x k. closes l b x),
  );
}

-- A bid that is marked as over.
pub left-IsBid :
    (status : PriceBidStatus) (now : ℕ) (b : PriceBid) → IsBid b → IsBid (left status now b)
left-IsBid status now b h = record { apart = h.apart; stands = h.stands; answered = λ _. refl }

pub left-IsNegotiated :
    (status : PriceBidStatus) (t : PriceBid → Bool) (now : ℕ) (db : BidDb)
    → is_pending status ≡ false
    → IsNegotiated db
    → IsNegotiated (record db { bids = update_where t (left status now) db.bids })
left-IsNegotiated status t now db over h =
    updated-IsNegotiated t (left status now) db (left-IsBid status now)
      (λ l b x k. ground (arith, over)) h

in_message-IsBid : (attach : Bool) (m : ℕ) (b : PriceBid) → IsBid b → IsBid (in_message attach m b)
in_message-IsBid true m b h = record { apart = h.apart; stands = h.stands; answered = h.answered }
in_message-IsBid false m b h = h

in_message-open :
    (attach : Bool) (m l v : ℕ) (b : PriceBid)
    → is_open_of l v (in_message attach m b) ≡ true
    → is_open_of l v b ≡ true
in_message-open true m l v b h = h
in_message-open false m l v b h = h

in_thread-IsBid : (c : Option ℕ) (b : PriceBid) → IsBid b → IsBid (record b { conversation_id = c })
in_thread-IsBid c b h = record { apart = h.apart; stands = h.stands; answered = h.answered }

module _ (chat : Chat) (b : PriceBid) (sender : ℕ) (attach : Bool) (db : BidDb) where
  say-IsNegotiated : (c : ℕ) → IsNegotiated db → IsNegotiated (say chat b sender attach c db)
  unfolding say
  say-IsNegotiated c h =
      elim (Option-cases (chat.send c sender (if attach then some b.id else none))) [
        | inl failed ↦ rw (failed, say) h
        | inr (m, sent) ↦
            rw (sent, say)
              (updated-IsNegotiated (λ x. x.id == b.id) (in_message attach m) db
                (in_message-IsBid attach m) (λ l v x. in_message-open attach m l v x) h)
      ]

  open_thread-IsNegotiated : IsNegotiated db → IsNegotiated (open_thread chat b sender attach db)
  unfolding open_thread
  open_thread-IsNegotiated h = elim (Bool-cases (sender == b.bidder_id)) [
    | inr other ↦ rw other h
    | inl by_buyer ↦
        elim (Option-cases
          (chat.start b.bidder_id b.listing_id (if attach then some b.id else none))) [
            | inl failed ↦ rw (by_buyer, failed) h
            | inr ((c, m), started) ↦
                rw (by_buyer, started)
                  (updated-IsNegotiated (λ x. x.id == b.id)
                    (λ x. in_message attach m (record x { conversation_id = some c })) db
                    (λ x k. in_message-IsBid attach m _ (in_thread-IsBid (some c) x k))
                    (λ l v x k.
                      in_message-open attach m l v (record x { conversation_id = some c }) k)
                    h)
          ]
  ]

  announce_in-IsNegotiated :
      (thread : Option ℕ)
      → IsNegotiated db
      → IsNegotiated (announce_in chat b sender attach thread db)
  unfolding announce_in
  announce_in-IsNegotiated (some c) h = say-IsNegotiated c h
  announce_in-IsNegotiated none h = open_thread-IsNegotiated h

  -- What is said in the chat leaves the negotiation as it is.
  pub announce-IsNegotiated : IsNegotiated db → IsNegotiated (announce chat b sender attach db)
  unfolding announce
  announce-IsNegotiated h = announce_in-IsNegotiated b.conversation_id h

-- The rows after a bid is written, if the index lets it be.
pub insert_bid-IsNegotiated :
    (b : PriceBid) (db : BidDb) → IsBid b → IsNegotiated db → IsNegotiated (insert_bid b db).1
unfolding insert_bid
insert_bid-IsNegotiated b db new h =
    elim (Bool-cases (any (is_open_of b.listing_id b.bidder_id) db.bids)) [
      | inl clash ↦ rw clash h
      | inr free ↦ rw free (record {
        rows = (new, h.rows);
        single = λ l v. elim (Bool-cases (is_open_of l v b)) [
          | inr other ↦ rw other (ground (arith, h.single l v))
          | inl hit ↦
              let same_l : b.listing_id ≡ l = (==_iff b.listing_id l).0 (ground arith) in
              let same_v : b.bidder_id ≡ v = (==_iff b.bidder_id v).0 (ground arith) in
              let none_left : count_if (is_open_of l v) db.bids ≡ 0 =
                any-count (is_open_of l v) db.bids (rw (same_l, same_v) at free) in
              rw (hit, none_left) (omega arith)
        ];
      })
    ]
