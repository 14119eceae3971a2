-- ===== src/PriceBids/Negotiation/Answered.antt =====
-- Counter-offers, answers and sweeps keep the invariant (price-bids/price-bids.service.ts).
use qayoda_backend.Base.{
  ℕ, ◌≡◌, ◌≢◌, refl, true, false, not, some, List, ◌==◌, ◌&&◌, Bool-cases, inl, inr, if◌then◌else◌,
  or_default, take, select,
}
use qayoda_backend.Base.Actions.{
  Holds, bind-Holds, pure-Holds, raise_if-Holds, modify-Holds, transaction-Holds, read-Holds,
}
use qayoda_backend.PriceBids.Types.{
  ListingOffer, PriceBidDirection, Currency, PriceBid, PriceBidStatus, declined, withdrawn, expired,
  is_pending, is_settled, BidDb, NotificationKind, bid_countered, not_your_bid, own_offer,
  listing_not_open, not_the_author, seller, buyer,
}
use qayoda_backend.PriceBids.Rules.{author_of, counterparty_of, assert_open}
use qayoda_backend.PriceBids.Place.{counter_row, Chat, CreatePriceBid, load_respondable, counter}
use qayoda_backend.PriceBids.Answer.{settle, answer, withdraw}
use qayoda_backend.PriceBids.Sweep.{
  close_rows, expire_due_bids, close_open_bids_for, is_one_of, is_due,
}
use qayoda_backend.PriceBids.Negotiation.Invariant.{IsBid, IsNegotiated, left-IsNegotiated}
use qayoda_backend.PriceBids.Negotiation.Placed.{
  Keeps, get_summary-Keeps, resolve_asking-Keeps, assert_sane_amount-Keeps, notify-Keeps,
  reload-Holds, show_bid-Keeps, announce-Keeps, replace_by_counter-Keeps, shown-Keeps,
  bid_row-IsBid,
}

assert_open-Keeps : (b : PriceBid) → Keeps (assert_open b)
unfolding assert_open
assert_open-Keeps b = read-Holds IsNegotiated (assert_open b) (λ s.
    elim (Bool-cases (is_settled b.status)) [ inl over ↦ rw over refl | inr live ↦ rw live refl ])

load_respondable-Holds : (id user : ℕ) → Holds IsNegotiated IsBid (load_respondable id user)
unfolding load_respondable
load_respondable-Holds id user = bind-Holds IsNegotiated _ _ _ _ (reload-Holds id) (λ b found.
    bind-Holds IsNegotiated _ _ _ _
      (raise_if-Holds IsNegotiated (not (b.bidder_id == user) && not (b.owner_id == user))
        not_your_bid)
      (λ _ _.
        bind-Holds IsNegotiated _ _ _ _
          (raise_if-Holds IsNegotiated (author_of b == user) own_offer)
          (λ _ _. bind-Holds IsNegotiated _ _ _ _ (assert_open-Keeps b) (λ _ _.
            bind-Holds IsNegotiated _ _ _ _ (get_summary-Keeps b.listing_id) (λ l _.
              bind-Holds IsNegotiated _ _ _ _
                (raise_if-Holds IsNegotiated (not l.open_to_bids) listing_not_open)
                (λ _ _. pure-Holds IsNegotiated IsBid b found))))))

counter_row-IsBid :
    (rate : ℕ) (previous : PriceBid) (direction : PriceBidDirection) (asking : ListingOffer)
    (amount : ℕ) (currency : Currency) (now id : ℕ)
    → previous.bidder_id ≢ previous.owner_id
    → IsBid (counter_row rate previous direction asking amount currency now id)
unfolding counter_row
counter_row-IsBid rate previous direction asking amount currency now id other =
    let k =
      bid_row-IsBid rate now id previous.listing_id previous.bidder_id previous.owner_id
        previous.conversation_id direction asking amount currency other in
    record { apart = k.apart; stands = k.stands; answered = k.answered }

pub counter-Keeps :
    (rate : ℕ) (chat : Chat) (id user : ℕ) (dto : CreatePriceBid)
    → Keeps (counter rate chat id user dto)
unfolding counter
counter-Keeps rate chat id user dto =
    bind-Holds IsNegotiated _ _ _ _ (load_respondable-Holds id user) (λ previous found.
      bind-Holds IsNegotiated _ _ _ _
        (resolve_asking-Keeps previous.listing_id (some previous.purpose))
        (λ asking _.
          let currency = or_default dto.currency previous.currency in
          let direction = if user == previous.owner_id then seller else buyer in
          bind-Holds IsNegotiated _ _ _ _ (assert_sane_amount-Keeps rate dto.amount asking currency)
            (λ _ _.
              bind-Holds IsNegotiated _ _ _ _
                (transaction-Holds IsNegotiated _ _ (
                  replace_by_counter-Keeps
                    (counter_row rate previous direction asking dto.amount currency) previous
                    (λ now new.
                      counter_row-IsBid rate previous direction asking dto.amount currency now new
                        found.apart)))
                (λ b _. bind-Holds IsNegotiated _ _ _ _ (announce-Keeps chat b user true) (λ _ _.
                  bind-Holds IsNegotiated _ _ _ _
                    (notify-Keeps (counterparty_of b user) bid_countered b)
                    (λ _ _. shown-Keeps b.id))))))

-- The write of an answer, whatever has become of the row since it was read.
pub settle-Keeps :
    (status : PriceBidStatus) (b : PriceBid) → is_pending status ≡ false → Keeps (settle status b)
unfolding settle
settle-Keeps status b over =
    modify-Holds IsNegotiated _ (λ s h. left-IsNegotiated status (λ x. x.id == b.id) s.now s over h)

pub answer-Keeps :
    (chat : Chat) (status : PriceBidStatus) (kind : NotificationKind) (id user : ℕ)
    → is_pending status ≡ false
    → Keeps (answer chat status kind id user)
unfolding answer
answer-Keeps chat status kind id user over =
    bind-Holds IsNegotiated _ _ _ _ (load_respondable-Holds id user) (λ b _.
      bind-Holds IsNegotiated _ _ _ _ (settle-Keeps status b over) (λ _ _.
        bind-Holds IsNegotiated _ _ _ _ (reload-Holds b.id) (λ settled _.
          bind-Holds IsNegotiated _ _ _ _ (announce-Keeps chat settled user false) (λ _ _.
            bind-Holds IsNegotiated _ _ _ _
              (notify-Keeps (counterparty_of settled user) kind settled)
              (λ _ _. show_bid-Keeps settled)))))

pub withdraw-Keeps : (id user : ℕ) → Keeps (withdraw id user)
unfolding withdraw
withdraw-Keeps id user = bind-Holds IsNegotiated _ _ _ _ (reload-Holds id) (λ b _.
    bind-Holds IsNegotiated _ _ _ _
      (raise_if-Holds IsNegotiated (not (author_of b == user)) not_the_author)
      (λ _ _. bind-Holds IsNegotiated _ _ _ _ (assert_open-Keeps b) (λ _ _.
        bind-Holds IsNegotiated _ _ _ _ (settle-Keeps withdrawn b refl) (λ _ _. shown-Keeps b.id))))

pub close_rows-IsNegotiated :
    (status : PriceBidStatus) (rows : List PriceBid) (db : BidDb)
    → is_pending status ≡ false
    → IsNegotiated db
    → IsNegotiated (close_rows status rows db)
unfolding close_rows
close_rows-IsNegotiated status rows db over h =
    left-IsNegotiated status (is_one_of rows) db.now db over h

pub expire_due_bids-IsNegotiated :
    (db : BidDb) → IsNegotiated db → IsNegotiated (expire_due_bids db)
unfolding expire_due_bids
expire_due_bids-IsNegotiated db h =
    let k = close_rows-IsNegotiated expired (take 500 (select (is_due db.now) db.bids)) db refl h in
    record { rows = k.rows; single = k.single }

pub close_open_bids_for-IsNegotiated :
    (listing : ℕ) (db : BidDb) → IsNegotiated db → IsNegotiated (close_open_bids_for listing db)
unfolding close_open_bids_for
close_open_bids_for-IsNegotiated listing db h =
    let k =
      close_rows-IsNegotiated declined
        (select (λ b. b.listing_id == listing && is_pending b.status) db.bids) db refl h in
    record { rows = k.rows; single = k.single }
