-- ===== src/L3Book/Query.antt =====
-- The queries of `l3_order_book.cpp`.
use hft_sdk.Base.{
  List, Option, [], if◌then◌else◌, length, lookup, ltb_ℤ, none, pos, some, suc, true, u32_mod, zero,
  ℕ, ◌%◌, ◌*ℤ◌, ◌+ℤ◌, ◌-ℤ◌, ◌-◌, ◌/ℤ◌, ◌==◌, ◌∷◌,
}
use hft_sdk.Types.{
  BookLevel, OrderId, Price, Quantity, Side, Symbol, Timestamp, TopOfBook, buy, default_tob, sell,
}
use hft_sdk.L3Book.{L3Order, Level, Levels, Location, Book}
use hft_sdk.L3Book.Levels.{find_level, find_node}

-- One level with its displayed quantity: `total += o.visible_qty; ++count`.
unfoldable pub queue_visible : List L3Order → Quantity → Quantity
queue_visible [] total = total
queue_visible (o ∷ q) total = queue_visible q (total +ℤ o.visible_qty)

unfoldable pub level_info : Level → BookLevel
level_info l = record {
  price = l.price;
  qty = queue_visible l.queue (pos 0);
  order_count = length l.queue % u32_mod;
}

unfoldable pub best_level : Levels → Option BookLevel
best_level [] = none
best_level (l ∷ ls) = some (level_info l)

unfoldable pub best_bid : Book → Option BookLevel
best_bid b = best_level b.bids

unfoldable pub best_ask : Book → Option BookLevel
best_ask b = best_level b.asks

-- The first `n` levels.
unfoldable pub depth : ℕ → Levels → List BookLevel
depth n [] = []
depth zero (l ∷ ls) = []
depth (suc n) (l ∷ ls) = level_info l ∷ depth n ls

unfoldable pub bid_depth : Book → ℕ → List BookLevel
bid_depth b n = depth n b.bids

unfoldable pub ask_depth : Book → ℕ → List BookLevel
ask_depth b n = depth n b.asks

-- The size-weighted price, or the middle where nothing is on display.
unfoldable pub micro_price_of : BookLevel → BookLevel → Price → Price
micro_price_of bid ask mid =
    let total = bid.qty +ℤ ask.qty in
    if ltb_ℤ (pos 0) total then (bid.price *ℤ ask.qty +ℤ ask.price *ℤ bid.qty) /ℤ total else mid

unfoldable pub tob_of : Symbol → Timestamp → Option BookLevel → Option BookLevel → TopOfBook
tob_of symbol ts none none = record default_tob { symbol = symbol; timestamp = ts }
tob_of symbol ts (some bid) none = record default_tob {
  symbol = symbol;
  timestamp = ts;
  valid = true;
  best_bid = bid;
  mid_price = bid.price;
}
tob_of symbol ts none (some ask) = record default_tob {
  symbol = symbol;
  timestamp = ts;
  valid = true;
  best_ask = ask;
  mid_price = ask.price;
}
tob_of symbol ts (some bid) (some ask) =
    let mid = (bid.price +ℤ ask.price) /ℤ pos 2 in
    record default_tob {
      symbol = symbol;
      timestamp = ts;
      valid = true;
      best_bid = bid;
      best_ask = ask;
      mid_price = mid;
      spread = ask.price -ℤ bid.price;
      micro_price = micro_price_of bid ask mid;
    }

unfoldable pub top_of_book : Book → Timestamp → TopOfBook
top_of_book b ts = tob_of b.symbol ts (best_bid b) (best_ask b)

abbrev pub side_levels : Book → Side → Levels
side_levels b buy = b.bids
side_levels b sell = b.asks

unfoldable pub orders_at_price : Book → Side → Price → List L3Order
orders_at_price b s p = elim (find_level p (side_levels b s)) [ none ↦ [] | some q ↦ q ]

-- The node that a location points to; `none` is an iterator that points to no node.
unfoldable pub deref : Book → Location → Option L3Order
deref b loc = elim (find_level loc.price (side_levels b loc.side)) [
  | none ↦ none
  | some q ↦ find_node loc.node q
]

-- The outer `none` is a read through such an iterator.
unfoldable pub queue_position : Book → OrderId → Option ℕ
queue_position b i = elim (lookup i b.order_index) [
  | none ↦ some (u32_mod - 1)
  | some loc ↦ elim (deref b loc) [ none ↦ none | some o ↦ some o.queue_pos ]
]

-- The displayed quantity of the orders before `i`.
unfoldable pub visible_before : OrderId → List L3Order → Quantity → Quantity
visible_before i [] ahead = ahead
visible_before i (o ∷ q) ahead =
    let rest = visible_before i q (ahead +ℤ o.visible_qty) in if o.id == i then ahead else rest

unfoldable pub quantity_ahead : Book → OrderId → Quantity
quantity_ahead b i = elim (lookup i b.order_index) [
  | none ↦ pos 0
  | some loc ↦ elim (find_level loc.price (side_levels b loc.side)) [
    | none ↦ pos 0
    | some q ↦ visible_before i q (pos 0)
  ]
]
