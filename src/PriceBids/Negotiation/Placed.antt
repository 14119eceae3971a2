-- ===== src/PriceBids/Negotiation/Placed.antt =====
-- Every method of the service keeps the invariant (price-bids/price-bids.service.ts).
use qayoda_backend.Base.{
  ℕ, ◌≡◌, ◌≢◌, refl, Bool, true, not, Option, none, some, List, [], ◌∷◌, arith, ◌==◌, ◌&&◌,
  Bool-cases, Option-cases, inl, inr, find?-All, find?, or_default, select,
}
use qayoda_backend.Base.Actions.{
  Holds, bind-Holds, pure-Holds, raise_if-Holds, gets-Holds, modify-Holds, transaction-Holds,
  read-Holds, gets, modify, ◌>>=◌,
}
use qayoda_backend.PriceBids.Types.{
  PriceBid, BidDb, Action, fresh_id, ListingOffer, Currency, OfferPurpose, NotificationKind,
  own_listing, listing_not_open, purpose_eq, buyer, withdrawn, countered, bid_received,
  PriceBidDirection,
}
use qayoda_backend.PriceBids.Rules.{
  notify, reload, show_bid, get_summary, assert_not_blocked, resolve_asking, price_for,
  assert_sane_amount, assert_under_daily_limit,
}
use qayoda_backend.PriceBids.Place.{
  Chat, announce, is_open_of, insert_bid, bid_row, replace_bid, replace_by_counter, CreatePriceBid,
  check_create, create,
}
use qayoda_backend.PriceBids.Negotiation.Invariant.{
  IsBid, IsNegotiated, updated-IsNegotiated, left-IsNegotiated, announce-IsNegotiated,
  insert_bid-IsNegotiated,
}

abbrev pub Keeps : {A : Type 0} → Action A → Type 0
Keeps m = Holds IsNegotiated (λ _. Unit {0}) m

pub get_summary-Keeps : (id : ℕ) → Keeps (get_summary id)
unfolding get_summary
get_summary-Keeps id = read-Holds IsNegotiated (get_summary id) (λ s.
    elim (Option-cases (find? (λ l. l.id == id) s.listings)) [
      | inl missing ↦ rw missing refl
      | inr (l, there) ↦ rw there refl
    ])

assert_not_blocked-Keeps : (a b : ℕ) → Keeps (assert_not_blocked a b)
unfolding assert_not_blocked
assert_not_blocked-Keeps a b = read-Holds IsNegotiated (assert_not_blocked a b) (λ s. refl)

price_for-read :
    (purpose : Option OfferPurpose) (active : List ListingOffer) (db : BidDb)
    → (price_for purpose active db).1 ≡ db
unfolding price_for
price_for-read purpose [] db = refl
price_for-read none (o ∷ []) db = refl
price_for-read none (o ∷ p ∷ os) db = refl
price_for-read (some purpose) (o ∷ os) db =
    elim (Option-cases (find? (λ x. purpose_eq purpose x.purpose) (o ∷ os))) [
      | inl missing ↦ rw missing refl
      | inr (x, there) ↦ rw there refl
    ]

pub resolve_asking-Keeps :
    (listing : ℕ) (purpose : Option OfferPurpose) → Keeps (resolve_asking listing purpose)
unfolding resolve_asking
resolve_asking-Keeps listing purpose =
    read-Holds IsNegotiated (resolve_asking listing purpose) (λ s.
      price_for-read purpose (select (λ o. o.listing_id == listing && o.is_active) s.offers) s)

pub assert_sane_amount-Keeps :
    (rate amount : ℕ) (asking : ListingOffer) (currency : Currency)
    → Keeps (assert_sane_amount rate amount asking currency)
unfolding assert_sane_amount
assert_sane_amount-Keeps rate amount asking currency =
    read-Holds IsNegotiated (assert_sane_amount rate amount asking currency) (λ s.
      elim (Bool-cases (amount == 0)) [
        | inl zero_amount ↦ rw zero_amount refl
        | inr more ↦ rw more refl
      ])

assert_under_daily_limit-Keeps :
    (listing bidder : ℕ) → Keeps (assert_under_daily_limit listing bidder)
unfolding assert_under_daily_limit
assert_under_daily_limit-Keeps listing bidder =
    read-Holds IsNegotiated (assert_under_daily_limit listing bidder) (λ s. refl)

-- The listing's owner is not the bidder.
abbrev ForOther : ℕ → ℕ × ListingOffer → Type 0
ForOther bidder found = bidder ≢ found.0

check_create-Holds :
    (rate : ℕ) (chat : Chat) (listing bidder : ℕ) (dto : CreatePriceBid)
    → Holds IsNegotiated (ForOther bidder) (check_create rate chat listing bidder dto)
unfolding check_create
check_create-Holds rate chat listing bidder dto =
    bind-Holds IsNegotiated _ _ _ _ (get_summary-Keeps listing) (λ l _.
      bind-Holds IsNegotiated _ _ _ _
        (raise_if-Holds IsNegotiated (not l.open_to_bids) listing_not_open)
        (λ _ _.
          bind-Holds IsNegotiated _ _ _ _
            (raise_if-Holds IsNegotiated (l.owner_id == bidder) own_listing)
            (λ _ other.
              bind-Holds IsNegotiated _ _ _ _ (assert_not_blocked-Keeps bidder l.owner_id) (λ _ _.
                bind-Holds IsNegotiated _ _ _ _ (resolve_asking-Keeps listing dto.purpose)
                  (λ asking _.
                    bind-Holds IsNegotiated _ _ _ _
                      (assert_sane_amount-Keeps rate dto.amount asking
                        (or_default dto.currency asking.currency))
                      (λ _ _.
                        bind-Holds IsNegotiated _ _ _ _
                          (assert_under_daily_limit-Keeps listing bidder)
                          (λ _ _.
                            pure-Holds IsNegotiated (ForOther bidder) (l.owner_id, asking)
                              (λ same. absurd (ground (arith, other))))))))))

pub notify-Keeps : (user : ℕ) (kind : NotificationKind) (b : PriceBid) → Keeps (notify user kind b)
unfolding notify
notify-Keeps user kind b =
    modify-Holds IsNegotiated _ (λ s h. record { rows = h.rows; single = h.single })

pub reload-Holds : (id : ℕ) → Holds IsNegotiated IsBid (reload id)
unfolding reload
reload-Holds id = record {
  state = λ s h. elim (Option-cases (find? (λ b. b.id == id) s.bids)) [
    | inl missing ↦ rw missing h
    | inr (b, there) ↦ rw there h
  ];
  result = λ s h a e. elim (Option-cases (find? (λ b. b.id == id) s.bids)) [
    | inl missing ↦ absurd (cc (rw missing at e))
    | inr (b, there) ↦
        let same : b ≡ a = cc (rw there at e) in
        rw (← same) (find?-All IsBid (λ x. x.id == id) s.bids b h.rows there)
  ];
}

pub show_bid-Keeps : (b : PriceBid) → Keeps (show_bid b)
unfolding show_bid
show_bid-Keeps b = read-Holds IsNegotiated (show_bid b) (λ s. refl)

pub announce-Keeps :
    (chat : Chat) (b : PriceBid) (sender : ℕ) (attach : Bool)
    → Keeps (modify (announce chat b sender attach))
announce-Keeps chat b sender attach =
    modify-Holds IsNegotiated _ (λ s h. announce-IsNegotiated chat b sender attach s h)

insert_bid-Keeps : (b : PriceBid) → IsBid b → Keeps (insert_bid b)
insert_bid-Keeps b new = record {
  state = λ s h. insert_bid-IsNegotiated b s new h;
  result = λ s h a e. tt;
}

fresh_id-Keeps : Keeps fresh_id
fresh_id-Keeps = record {
  state = λ s h. record { rows = h.rows; single = h.single };
  result = λ s h a e. tt;
}

now-Keeps : Keeps (gets (λ db. db.now))
now-Keeps = gets-Holds IsNegotiated (λ _. Unit {0}) (λ db. db.now) (λ s h. tt)

replace_bid-Keeps :
    (row : ℕ → ℕ → PriceBid) (listing bidder : ℕ)
    → ((now id : ℕ) → IsBid (row now id))
    → Keeps (replace_bid row listing bidder)
unfolding replace_bid
replace_bid-Keeps row listing bidder new =
    bind-Holds IsNegotiated _ _ _ _
      (modify-Holds IsNegotiated _
        (λ s h. left-IsNegotiated withdrawn (is_open_of listing bidder) s.now s refl h))
      (λ _ _. bind-Holds IsNegotiated _ _ _ _ fresh_id-Keeps (λ id _.
        bind-Holds IsNegotiated _ _ _ _ now-Keeps (λ now _.
          bind-Holds IsNegotiated _ _ _ _ (insert_bid-Keeps (row now id) (new now id))
            (λ _ _. pure-Holds IsNegotiated (λ _. Unit {0}) (row now id) tt))))

-- The row that a counter-offer answers.
abbrev answered_by : ℕ → ℕ → PriceBid → PriceBid
answered_by now id b = record b {
  status = countered;
  responded_at = some now;
  superseded_by_id = some id;
}

pub replace_by_counter-Keeps :
    (row : ℕ → ℕ → PriceBid) (previous : PriceBid)
    → ((now id : ℕ) → IsBid (row now id))
    → Keeps (replace_by_counter row previous)
unfolding replace_by_counter
replace_by_counter-Keeps row previous new = bind-Holds IsNegotiated _ _ _ _ fresh_id-Keeps (λ id _.
    bind-Holds IsNegotiated _ _ _ _ now-Keeps (λ now _.
      bind-Holds IsNegotiated _ _ _ _ (insert_bid-Keeps (row now id) (new now id)) (λ _ _.
        bind-Holds IsNegotiated _ _ _ _
          (modify-Holds IsNegotiated _ (λ s h.
            updated-IsNegotiated (λ b. b.id == previous.id) (answered_by now id) s
              (λ b k. record { apart = k.apart; stands = k.stands; answered = λ _. refl })
              (λ l v b k. ground arith) h))
          (λ _ _. pure-Holds IsNegotiated (λ _. Unit {0}) (row now id) tt))))

pub shown-Keeps : (id : ℕ) → Keeps (reload id >>= λ b. show_bid b)
shown-Keeps id = bind-Holds IsNegotiated _ _ _ _ (reload-Holds id) (λ b _. show_bid-Keeps b)

pub bid_row-IsBid :
    (rate now id listing bidder owner : ℕ) (thread : Option ℕ) (direction : PriceBidDirection)
    (asking : ListingOffer) (amount : ℕ) (currency : Currency)
    → bidder ≢ owner
    → IsBid (bid_row rate now id listing bidder owner thread direction asking amount currency)
bid_row-IsBid rate now id listing bidder owner thread direction asking amount currency other =
    record { apart = other; stands = refl; answered = λ k. absurd (cc k) }

module _ (rate : ℕ) (chat : Chat) where
  pub create-Keeps :
      (listing bidder : ℕ) (dto : CreatePriceBid) → Keeps (create rate chat listing bidder dto)
  unfolding create
  create-Keeps listing bidder dto =
      bind-Holds IsNegotiated _ _ _ _ (check_create-Holds rate chat listing bidder dto)
        (λ found other.
          bind-Holds IsNegotiated _ _ _ _
            (transaction-Holds IsNegotiated _ _ (
              replace_bid-Keeps _ listing bidder (λ now id.
                bid_row-IsBid rate now id listing bidder found.0 none buyer found.1 dto.amount
                  (or_default dto.currency found.1.currency) other)))
            (λ b _. bind-Holds IsNegotiated _ _ _ _ (announce-Keeps chat b bidder true) (λ _ _.
              bind-Holds IsNegotiated _ _ _ _ (notify-Keeps found.0 bid_received b)
                (λ _ _. shown-Keeps b.id))))
