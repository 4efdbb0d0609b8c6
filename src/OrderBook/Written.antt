-- ===== src/OrderBook/Written.antt =====
-- What the trades of `order_book.cpp` and of `l3_order_book.cpp` say of the incoming order and the book.
use hft_sdk.Base.{
  All, All-append, Bool-cases, List, [], inl, inr, ltb_ℤ, map, min_ℤ, not, pos, refl, sym, ◌&&◌,
  ◌-ℤ◌, ◌==ℤ◌, ◌∙◌, ◌∷◌, ◌≡◌,
}
use hft_sdk.Types.{Order, OrderId, Price, Side, Symbol, Timestamp, Trade}
use hft_sdk.L3Book.{Book, L3Order, Levels}
use hft_sdk.L3Book.Match.{
  cannot_fill, match_incoming, match_one, opposite, record_trade, run_match, start,
}
use hft_sdk.L3Book.Offers.{Offer, of_trade}
use hft_sdk.L3Book.Steps.{AllOrders, match_against-inv}
use hft_sdk.OrderBook.{
  BookOrder, BookNode, PriceLevel, Filling, is_beyond, fill_one, fill_queue, fill_side,
}

-- A trade less its id and its two traders, which the simple book does not write.
abbrev pub common : Trade → Trade
common t = record t { trade_id = 0; resting_trader = 0; incoming_trader = 0 }

module _ (symbol : Symbol) (id : OrderId) (side : Side) (ts : Timestamp) where
  -- The trade of an incoming order with an offer.
  abbrev pub trade_with : Offer → Trade
  trade_with o = record {
    trade_id = 0;
    resting_id = o.id;
    incoming_id = id;
    resting_trader = 0;
    incoming_trader = 0;
    symbol = symbol;
    aggressor_side = side;
    price = o.price;
    qty = o.quantity;
    match_timestamp_ns = ts;
  }

  abbrev pub IsWritten : Trade → Type 0
  IsWritten t = common t ≡ trade_with (of_trade t)

  map-IsWritten :
      (l : List Trade) → All IsWritten l → map common l ≡ map trade_with (map of_trade l)
  map-IsWritten [] h = refl
  map-IsWritten (t ∷ l) h = λ i. h.0 i ∷ map-IsWritten l h.1 i

-- Trades of one incoming order in two books of one symbol agree where the offers agree that they took.
pub map-common_agree :
    (sy sy' : Symbol) (id id' : OrderId) (s s' : Side) (ts : Timestamp) (l m : List Trade)
    → sy ≡ sy'
    → id ≡ id'
    → s ≡ s'
    → All (IsWritten sy id s ts) l
    → All (IsWritten sy' id' s' ts) m
    → map of_trade l ≡ map of_trade m
    → map common l ≡ map common m
map-common_agree sy sy' id id' s s' ts l m a b c h k e =
    map-IsWritten sy id s ts l h
    ∙ (λ i. map (trade_with (a i) (b i) (c i) ts) (e i))
    ∙ sym (map-IsWritten sy' id' s' ts m k)

module _ (symbol : Symbol) (incoming : BookOrder) (ts : Timestamp) where
  abbrev OfIncoming : Filling → Type 0
  OfIncoming f = All (IsWritten symbol incoming.id incoming.side ts) f.trades

  fill_one-OfIncoming :
      (p : Price) (o : BookOrder) (f : Filling)
      → OfIncoming f
      → OfIncoming (fill_one symbol incoming ts p o f)
  unfolding fill_one
  fill_one-OfIncoming p o f h = All-append _ f.trades _ h (refl, tt)

  fill_queue-OfIncoming :
      (p : Price) (q : List BookNode) (f : Filling)
      → OfIncoming f
      → OfIncoming (fill_queue symbol incoming ts p q f).1
  unfolding fill_queue
  fill_queue-OfIncoming p [] f h = h
  fill_queue-OfIncoming p (n ∷ q) f h =
      let now = fill_one-OfIncoming p n.order f h in
      elim (Bool-cases (ltb_ℤ (pos 0) f.remaining)) [
        | inr e ↦ rw e h
        | inl e ↦ elim (Bool-cases ((n.order.qty -ℤ min_ℤ f.remaining n.order.qty) ==ℤ pos 0)) [
          | inl g ↦ rw (e, g) (fill_queue-OfIncoming p q _ now)
          | inr g ↦ rw (e, g) now
        ]
      ]

  pub fill_side-OfIncoming :
      (ls : List PriceLevel) (f : Filling)
      → OfIncoming f
      → OfIncoming (fill_side symbol incoming ts ls f).1
  unfolding fill_side
  fill_side-OfIncoming [] f h = h
  fill_side-OfIncoming (l ∷ ls) f h =
      elim (Bool-cases (ltb_ℤ (pos 0) f.remaining && not (is_beyond incoming l.price))) [
        | inr e ↦ rw e h
        | inl e ↦ rw e (fill_side-OfIncoming ls _ (fill_queue-OfIncoming l.price l.queue f h))
      ]

AllOrders-Unit : (ls : Levels) → AllOrders (λ p o. Unit) ls
AllOrders-Unit [] = tt
AllOrders-Unit (l ∷ ls) = (each l.queue, AllOrders-Unit ls)
  where
    each : (q : List L3Order) → All {_, 0} (λ o. Unit {0}) q
    each [] = tt
    each (o ∷ q) = (tt, each q)

pub match_incoming-IsWritten :
    (c : Book) (r : Order) (ts : Timestamp)
    → All (IsWritten c.symbol r.id r.side ts) (match_incoming c r ts).1.trades
unfolding match_incoming run_match match_one record_trade
match_incoming-IsWritten c r ts = elim (Bool-cases (cannot_fill c r)) [
  | inl e ↦ rw e tt
  | inr e ↦ rw e (
      match_against-inv c.symbol r ts (λ p o. Unit)
        (λ s. All (IsWritten c.symbol r.id r.side ts) s.trades)
        (λ p o s beyond offer some_left h. All-append _ s.trades _ h (refl, tt)) (opposite c r.side)
        (start c r) (AllOrders-Unit (opposite c r.side)) tt)
]
