-- ===== src/OrderBook.antt =====
-- The simple book of `src/market/order_book.hpp` and `src/market/order_book.cpp`. A node of a
-- `std::list` has a number, which the book counts, and a list iterator of the index is the number of
-- its node, so two orders with one id are two nodes.
pub mod Agreement
pub mod Loops
pub mod Offers
pub mod Quantities
pub mod Tests
pub mod Valid
pub mod Written
use hft_sdk.Base.{
  Bool, List, Option, [], erase, false, if◌then◌else◌, insert, lookup, ltb_ℤ, min_ℤ, none, not, pos,
  some, suc, true, zero, ℕ, ◌&&◌, ◌++◌, ◌+ℤ◌, ◌-ℤ◌, ◌==ℤ◌, ◌==◌, ◌∷◌,
}
use hft_sdk.Types.{
  BookLevel, NewOrder, OrderId, OrderType, Price, Quantity, Side, Symbol, Timestamp, Trade,
  TraderId, buy, is_buy, is_limit, sell,
}

-- `BookOrder`.
pub record BookOrder : Type 0 where
  pub id : OrderId
  pub trader : TraderId
  pub qty : Quantity
  pub price : Price
  pub side : Side
  pub type : OrderType
  pub ts_ns : Timestamp

-- Its constructor.
abbrev pub book_order : NewOrder → Timestamp → BookOrder
book_order o ts_ns = record {
  id = o.id;
  trader = o.trader;
  qty = o.qty;
  price = o.price;
  side = o.side;
  type = o.type;
  ts_ns = ts_ns;
}

-- A node of a `Queue`.
pub record BookNode : Type 0 where
  pub node : ℕ
  pub order : BookOrder

-- One entry of `PriceLevelBid` or `PriceLevelAsk`.
pub record PriceLevel : Type 0 where
  pub price : Price
  pub queue : List BookNode

-- `OrderLocation`.
pub record BookLocation : Type 0 where
  pub side : Side
  pub price : Price
  pub it : ℕ

abbrev pub OrderIndex : Type 0
OrderIndex = List (OrderId × BookLocation)

pub record OrderBook : Type 0 where
  pub symbol : Symbol
  pub bids : List PriceLevel
  pub asks : List PriceLevel
  pub order_index : OrderIndex
  pub next_node : ℕ

abbrev pub new_order_book : Symbol → OrderBook
new_order_book symbol = record {
  symbol = symbol;
  bids = [];
  asks = [];
  order_index = [];
  next_node = 0;
}

-- The order of the keys: `std::greater` for the bids, `std::less` for the asks.
abbrev pub comes_first : Side → Price → Price → Bool
comes_first buy p q = ltb_ℤ q p
comes_first sell p q = ltb_ℤ p q

-- `levels[price].push_back(ord)`.
unfoldable pub push_order : Side → Price → BookNode → List PriceLevel → List PriceLevel
push_order s p n [] = record { price = p; queue = n ∷ [] } ∷ []
push_order s p n (l ∷ ls) =
    if comes_first s p l.price
    then record { price = p; queue = n ∷ [] } ∷ l ∷ ls
    else if comes_first s l.price p
    then l ∷ push_order s p n ls
    else record l { queue = l.queue ++ n ∷ [] } ∷ ls

abbrev pub side_of : OrderBook → Side → List PriceLevel
side_of b buy = b.bids
side_of b sell = b.asks

abbrev pub with_side : Side → List PriceLevel → OrderBook → OrderBook
with_side buy ls b = record b { bids = ls }
with_side sell ls b = record b { asks = ls }

unfoldable pub add_book_order : OrderBook → BookOrder → OrderBook
add_book_order b o =
    let n : BookNode = record { node = b.next_node; order = o } in
    let loc : BookLocation = record { side = o.side; price = o.price; it = b.next_node } in
    with_side o.side (push_order o.side o.price n (side_of b o.side))
      (record b { order_index = insert o.id loc b.order_index; next_node = suc b.next_node })

-- `queue.erase(loc.it)`; `none` is an iterator whose node is gone.
unfoldable pub erase_it : ℕ → List BookNode → Option (List BookNode)
erase_it it [] = none
erase_it it (n ∷ q) =
    let rest = erase_it it q in
    if n.node == it then some q else elim rest [ none ↦ none | some q' ↦ some (n ∷ q') ]

-- An empty level is erased.
abbrev pub keep_filled : Price → List BookNode → List PriceLevel → List PriceLevel
keep_filled p [] ls = ls
keep_filled p (o ∷ q) ls = record { price = p; queue = o ∷ q } ∷ ls

-- The erasure in the level at the key `p`. A key that is missing would be an iterator without a node.
unfoldable pub erase_in : Price → ℕ → List PriceLevel → Option (List PriceLevel)
erase_in p it [] = none
erase_in p it (l ∷ ls) =
    let rest = erase_in p it ls in
    if l.price ==ℤ p
    then elim (erase_it it l.queue) [ none ↦ none | some q ↦ some (keep_filled l.price q ls) ]
    else elim rest [ none ↦ none | some ls' ↦ some (l ∷ ls') ]

-- `cancelOrder` with its result; `none` is the use of an iterator whose node is gone.
unfoldable pub cancel_book_order : OrderBook → OrderId → Option (OrderBook × Bool)
cancel_book_order b id = elim (lookup id b.order_index) [
  | none ↦ some (b, false)
  | some loc ↦ elim (erase_in loc.price loc.it (side_of b loc.side)) [
    | none ↦ none
    | some ls ↦
        some (with_side loc.side ls (record b { order_index = erase id b.order_index }), true)
  ]
]

abbrev pub fill_of : Symbol → BookOrder → Timestamp → Price → BookOrder → Quantity → Trade
fill_of symbol incoming ts p resting matched_qty = record {
  trade_id = 0;
  resting_id = resting.id;
  incoming_id = incoming.id;
  resting_trader = 0;
  incoming_trader = 0;
  symbol = symbol;
  aggressor_side = incoming.side;
  price = p;
  qty = matched_qty;
  match_timestamp_ns = ts;
}

-- The state of the loops: `trades`, `remaining` and the index.
pub record Filling : Type 0 where
  pub order_index : OrderIndex
  pub trades : List Trade
  pub remaining : Quantity

-- The check that ends the outer loop.
abbrev pub is_beyond : BookOrder → Price → Bool
is_beyond incoming p =
    (if is_buy incoming.side then ltb_ℤ incoming.price p else ltb_ℤ p incoming.price)
    && is_limit incoming.type

module _ (symbol : Symbol) (incoming : BookOrder) (ts : Timestamp) where
  -- The trade with a resting order, which leaves the index if it is used up.
  unfoldable pub fill_one : Price → BookOrder → Filling → Filling
  fill_one p o f =
      let matched_qty = min_ℤ f.remaining o.qty in
      record {
        order_index =
            if (o.qty -ℤ matched_qty) ==ℤ pos 0 then erase o.id f.order_index else f.order_index;
        trades = f.trades ++ fill_of symbol incoming ts p o matched_qty ∷ [];
        remaining = f.remaining -ℤ matched_qty;
      }

  -- The inner loop. An order with quantity left stays at the front; as the incoming order was then
  -- the smaller one, nothing of it remains and the loop ends.
  unfoldable pub fill_queue : Price → List BookNode → Filling → List BookNode × Filling
  fill_queue p [] f = ([], f)
  fill_queue p (n ∷ q) f =
      let left = n.order.qty -ℤ min_ℤ f.remaining n.order.qty in
      let f' = fill_one p n.order f in
      let rest = fill_queue p q f' in
      if ltb_ℤ (pos 0) f.remaining
      then if left ==ℤ pos 0
        then rest
        else (record n { order = record (n.order) { qty = left } } ∷ q, f')
      else (n ∷ q, f)

  -- The outer loop goes on after a level that is used up; else nothing remains, and it ends.
  unfoldable pub fill_side : List PriceLevel → Filling → List PriceLevel × Filling
  fill_side [] f = ([], f)
  fill_side (l ∷ ls) f =
      if ltb_ℤ (pos 0) f.remaining && not (is_beyond incoming l.price)
      then (let (q, f') = fill_queue l.price l.queue f in
          let (ls', f'') = fill_side ls f' in (keep_filled l.price q ls', f''))
      else (l ∷ ls, f)

abbrev pub resting_side : Side → Side
resting_side buy = sell
resting_side sell = buy

unfoldable pub match_book_order : OrderBook → BookOrder → Timestamp → OrderBook × Filling
match_book_order b o ts =
    let s = resting_side o.side in
    let begun : Filling = record { order_index = b.order_index; trades = []; remaining = o.qty } in
    let (ls, f) = fill_side b.symbol o ts (side_of b s) begun in
    (with_side s ls (record b { order_index = f.order_index }), f)

-- `total_qty += ord.qty` over a queue.
unfoldable pub queue_total : List BookNode → Quantity → Quantity
queue_total [] total = total
queue_total (n ∷ q) total = queue_total q (total +ℤ n.order.qty)

abbrev pub total_level : PriceLevel → BookLevel
total_level l = record { price = l.price; qty = queue_total l.queue (pos 0); order_count = 0 }

unfoldable pub best_total : List PriceLevel → Option BookLevel
best_total [] = none
best_total (l ∷ ls) = some (total_level l)

-- The first `depth` levels.
unfoldable pub total_depth : ℕ → List PriceLevel → List BookLevel
total_depth n [] = []
total_depth zero (l ∷ ls) = []
total_depth (suc n) (l ∷ ls) = total_level l ∷ total_depth n ls
