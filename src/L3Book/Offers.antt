-- ===== src/L3Book/Offers.antt =====
-- The offers of a side of `l3_order_book.cpp`, and a reference that knows neither levels nor queues: it
-- walks the offers one by one.
use hft_sdk.Base.{
  Bool, Bool-cases, List, [], ap, false, if◌then◌else◌, inl, inr, ltb_ℤ, map, min_ℤ, not, pos, refl,
  ◌&&◌, ◌++◌, ◌-ℤ◌, ◌==ℤ◌, ◌∷◌, ◌≡◌, ◌≢◌,
}
use hft_sdk.Types.{Order, OrderId, Price, Quantity, Trade}
use hft_sdk.L3Book.{L3Order, Levels, Progress}
use hft_sdk.L3Book.Match.{
  open_qty, is_done, breaks_at, resting_after, match_qty, keep_node, keep_level,
}
use hft_sdk.L3Book.Fills.{open_qty-resting_after}
use hft_sdk.L3Book.Sides.{resting_after_same}

-- What a resting order offers.
pub record Offer : Type 0 where
  pub id : OrderId
  pub price : Price
  pub quantity : Quantity

abbrev pub offer_of : Price → L3Order → Offer
offer_of p o = record { id = o.id; price = p; quantity = open_qty o }

abbrev pub queue_offers : Price → List L3Order → List Offer
queue_offers p q = map (offer_of p) q

unfoldable pub offers : Levels → List Offer
offers [] = []
offers (l ∷ ls) = queue_offers l.price l.queue ++ offers ls

-- The order, with a quantity left, takes an offer.
abbrev pub takes : Order → Quantity → Offer → Bool
takes incoming left o = ltb_ℤ (pos 0) left && not (breaks_at incoming o.price)

-- What it takes of each offer, one after the other.
unfoldable pub taken : Order → Quantity → List Offer → List Offer
taken incoming left [] = []
taken incoming left (o ∷ os) =
    let m = min_ℤ left o.quantity in
    let rest = taken incoming (left -ℤ m) os in
    if takes incoming left o then record o { quantity = m } ∷ rest else []

-- What is left of the offers.
unfoldable pub untaken : Order → Quantity → List Offer → List Offer
untaken incoming left [] = []
untaken incoming left (o ∷ os) =
    let m = min_ℤ left o.quantity in
    let rest = untaken incoming (left -ℤ m) os in
    if takes incoming left o
    then if o.quantity -ℤ m ==ℤ pos 0 then rest else record o { quantity = o.quantity -ℤ m } ∷ rest
    else o ∷ os

-- The offer that a trade took.
abbrev pub of_trade : Trade → Offer
of_trade t = record { id = t.resting_id; price = t.price; quantity = t.qty }

pub of_trade-snoc :
    (ts : List Trade) (t : Trade) → map of_trade (ts ++ t ∷ []) ≡ map of_trade ts ++ of_trade t ∷ []
of_trade-snoc [] t = refl
of_trade-snoc (x ∷ ts) t = ap (λ l. of_trade x ∷ l) (of_trade-snoc ts t)

pub taken_none :
    (incoming : Order) (left : Quantity) (os : List Offer)
    → ltb_ℤ (pos 0) left ≡ false
    → (taken incoming left os ≡ []) × (untaken incoming left os ≡ os)
unfolding taken untaken
taken_none incoming left [] h = (refl, refl)
taken_none incoming left (o ∷ os) h = rw h (refl, refl)

pub taken_stop :
    (incoming : Order) (left : Quantity) (p : Price) (q : List L3Order) (os : List Offer)
    → q ≢ []
    → ltb_ℤ (pos 0) left && not (breaks_at incoming p) ≡ false
    → (taken incoming left (queue_offers p q ++ os) ≡ [])
      × (untaken incoming left (queue_offers p q ++ os) ≡ queue_offers p q ++ os)
unfolding taken untaken
taken_stop incoming left p [] os n h = absurd (n refl)
taken_stop incoming left p (o ∷ q) os n h = rw h (refl, refl)

pub offer_of-resting_after :
    (p : Price) (o : L3Order) (s : Progress)
    → offer_of p (resting_after o s)
      ≡ record { id = o.id; price = p; quantity = open_qty o -ℤ match_qty o s }
offer_of-resting_after p o s =
    let same = (resting_after_same o s).0 in
    let less = open_qty-resting_after o s in
    λ i. record { id = same i; price = p; quantity = less i }

pub offers-keep_node :
    (p : Price) (o : L3Order) (q : List L3Order)
    → queue_offers p (keep_node o q) ≡ queue_offers p (keep_node o []) ++ queue_offers p q
offers-keep_node p o q = elim (Bool-cases (is_done o)) [ inl e ↦ rw e refl | inr e ↦ rw e refl ]

pub offers-keep_level :
    (p : Price) (q : List L3Order) (ls : Levels)
    → offers (keep_level p q ls) ≡ queue_offers p q ++ offers ls
unfolding offers
offers-keep_level p [] ls = refl
offers-keep_level p (o ∷ q) ls = refl
