-- ===== src/L3Book/Ops.antt =====
-- `add_order`, `cancel_order` and `replace_order` of `l3_order_book.cpp`.
use hft_sdk.Base.{
  Bool, List, Option, [], erase, false, if◌then◌else◌, insert, lookup, ltb_ℤ, map, none, not, pos,
  some, true, u64_mod, ◌%◌, ◌&&◌, ◌++◌, ◌+ℤ◌, ◌+◌, ◌-ℤ◌, ◌==ℤ◌, ◌||◌, ◌∷◌,
}
use hft_sdk.Types.{
  ExecutionReport, Order, OrderId, Price, Quantity, ReplaceRequest, Side, TimeInForce, Timestamp,
  Trade, buy, canceled, day, default_order, default_report, duplicate_order_id, filled, fok, gtc,
  insufficient_liquidity, ioc, is_canceled, is_limit, is_new, limit, new, no_reason,
  partially_filled, rejected, sell,
}
use hft_sdk.L3Book.{
  L3Order, Location, Ledger, Book, MatchResult, BookEvent, on_trade, on_top_of_book,
}
use hft_sdk.L3Book.Levels.{push_level, erase_order}
use hft_sdk.L3Book.Match.{count_down, match_incoming}
use hft_sdk.L3Book.Query.{deref, top_of_book}

-- The report that an order starts with.
abbrev pub order_report : Order → Timestamp → ExecutionReport
order_report o ts = record default_report {
  order_id = o.id;
  trader_id = o.trader_id;
  symbol = o.symbol;
  side = o.side;
  type = o.type;
  price = o.price;
  order_qty = o.quantity;
  transact_time = ts;
  cl_ord_id = o.cl_ord_id;
}

-- `trades.back()`, whose quantity and price a partial fill reports.
unfoldable pub last_fill : List Trade → ExecutionReport → ExecutionReport
last_fill [] rpt = rpt
last_fill (t ∷ []) rpt = record rpt { last_qty = t.qty; last_price = t.price }
last_fill (t ∷ u ∷ ts) rpt = last_fill (u ∷ ts) rpt

-- The report after matching.
unfoldable pub match_report : Order → MatchResult → Timestamp → ExecutionReport
match_report o r ts =
    let rpt = record (order_report o ts) {
      filled_qty = o.quantity -ℤ r.remaining_qty;
      leaves_qty = r.remaining_qty;
    } in
    if r.remaining_qty ==ℤ pos 0
    then record rpt { status = filled }
    else if ltb_ℤ (pos 0) (o.quantity -ℤ r.remaining_qty)
    then last_fill r.trades (record rpt { status = partially_filled })
    else record rpt { status = new }

-- The entry of an order that rests.
abbrev pub resting_entry : Order → Quantity → Timestamp → L3Order
resting_entry o remaining ts = record {
  id = o.id;
  trader_id = o.trader_id;
  side = o.side;
  price = o.price;
  visible_qty = remaining;
  hidden_qty = pos 0;
  filled_qty = o.quantity -ℤ remaining;
  entry_time = ts;
  queue_pos = 0;
  is_iceberg = false;
  cl_ord_id = o.cl_ord_id;
}

abbrev pub index_order : Order → Ledger → List (OrderId × Location)
index_order o g = insert o.id (record { side = o.side; price = o.price; node = o.id }) g.order_index

abbrev pub push_side : Side → Book → Order → L3Order → Book
push_side buy b o l3 = record b {
  bids = push_level buy o.price l3 b.bids;
  ledger = record (b.ledger) {
    order_index = index_order o b.ledger;
    bid_order_count = (b.bid_order_count + 1) % u64_mod;
  };
}
push_side sell b o l3 = record b {
  asks = push_level sell o.price l3 b.asks;
  ledger = record (b.ledger) {
    order_index = index_order o b.ledger;
    ask_order_count = (b.ask_order_count + 1) % u64_mod;
  };
}

unfoldable pub add_resting_order : Book → Order → Quantity → Timestamp → Book
add_resting_order b o remaining ts = push_side o.side b o (resting_entry o remaining ts)

-- What happens to the rest of a limit order, by its time in force.
unfoldable pub rest_or_cancel :
    TimeInForce → Book → Order → MatchResult → Timestamp → ExecutionReport → Book × ExecutionReport
rest_or_cancel day b o r ts rpt = (add_resting_order b o r.remaining_qty ts, rpt)
rest_or_cancel gtc b o r ts rpt = (add_resting_order b o r.remaining_qty ts, rpt)
rest_or_cancel ioc b o r ts rpt =
    if ltb_ℤ (pos 0) (o.quantity -ℤ r.remaining_qty)
    then (b, record rpt { status = partially_filled; leaves_qty = pos 0 })
    else (b, record rpt { status = canceled; leaves_qty = pos 0 })
rest_or_cancel fok b o r ts rpt = (
  b,
  record rpt {
    status = rejected;
    reject_reason = insufficient_liquidity;
    filled_qty = pos 0;
    leaves_qty = pos 0;
  },
)

unfoldable pub place_rest : Book → Order → MatchResult → Timestamp → Book × ExecutionReport
place_rest b o r ts =
    let rpt = match_report o r ts in
    if ltb_ℤ (pos 0) r.remaining_qty && is_limit o.type
    then rest_or_cancel o.tif b o r ts rpt
    else (b, rpt)

abbrev pub is_empty {ℓ} : {A : Type ℓ} → List A → Bool
is_empty [] = true
is_empty (x ∷ xs) = false

-- The calls of the callbacks: one for each trade, then the top of the book if it may have changed.
unfoldable pub add_events : Book → MatchResult → ExecutionReport → Timestamp → List BookEvent
add_events b r rpt ts =
    map on_trade r.trades
    ++ (if not (is_empty r.trades) || is_new rpt.status
        then on_top_of_book (top_of_book b ts) ∷ []
        else [])

abbrev pub is_indexed : OrderId → Ledger → Bool
is_indexed i g = elim (lookup i g.order_index) [ none ↦ false | some loc ↦ true ]

abbrev pub duplicate_report : Order → Timestamp → ExecutionReport
duplicate_report o ts = record (order_report o ts) {
  status = rejected;
  reject_reason = duplicate_order_id;
  leaves_qty = pos 0;
}

unfoldable pub add_order : Book → Order → Timestamp → Book × ExecutionReport × List BookEvent
add_order b o ts =
    if is_indexed o.id b.ledger
    then (b, duplicate_report o ts, [])
    else (let (b1, r) = match_incoming b o ts in
        let (b2, rpt) = place_rest b1 o r ts in (b2, rpt, add_events b2 r rpt ts))

abbrev pub erase_side : Side → Book → Price → OrderId → Book
erase_side buy b p i = record b { bids = erase_order p i b.bids }
erase_side sell b p i = record b { asks = erase_order p i b.asks }

-- The book without the order that the index has at `loc`.
unfoldable pub remove_at : Book → OrderId → Location → Book
remove_at b i loc =
    let b' = erase_side loc.side b loc.price loc.node in
    record b' {
      ledger = record (count_down loc.side b.ledger) { order_index = erase i b.order_index };
    }

abbrev pub cancel_report : Book → OrderId → L3Order → Timestamp → ExecutionReport
cancel_report b i o ts = record default_report {
  order_id = i;
  transact_time = ts;
  trader_id = o.trader_id;
  symbol = b.symbol;
  side = o.side;
  price = o.price;
  order_qty = o.visible_qty +ℤ o.hidden_qty +ℤ o.filled_qty;
  filled_qty = o.filled_qty;
  leaves_qty = pos 0;
  status = canceled;
  cl_ord_id = o.cl_ord_id;
}

abbrev pub unknown_report : OrderId → Timestamp → ExecutionReport
unknown_report i ts = record default_report {
  order_id = i;
  transact_time = ts;
  status = rejected;
  reject_reason = no_reason;
}

-- `none` is a read through an iterator that points to no node.
unfoldable pub cancel_order :
    Book → OrderId → Timestamp → Option (Book × ExecutionReport × List BookEvent)
cancel_order b i ts = elim (lookup i b.order_index) [
  | none ↦ some (b, unknown_report i ts, [])
  | some loc ↦ elim (deref b loc) [
    | none ↦ none
    | some o ↦
        (let b' = remove_at b i loc in
          some (b', cancel_report b i o ts, on_top_of_book (top_of_book b' ts) ∷ []))
  ]
]

-- The order that a replacement submits.
abbrev pub replacement : ReplaceRequest → Side → Timestamp → Order
replacement req s ts = record default_order {
  id = req.order_id;
  trader_id = req.trader_id;
  symbol = req.symbol;
  side = s;
  type = limit;
  tif = day;
  price = req.new_price;
  quantity = req.new_qty;
  submit_time = ts;
  cl_ord_id = req.cl_ord_id;
}

-- The second half of a replacement, after the report of the cancel.
unfoldable pub resubmit :
    ReplaceRequest
    → Timestamp
    → Book × ExecutionReport × List BookEvent
    → Book × ExecutionReport × List BookEvent
resubmit req ts (b, rpt, events) =
    if is_canceled rpt.status
    then (let (b', rpt', events') = add_order b (replacement req rpt.side ts) ts in
        (b', rpt', events ++ events'))
    else (b, record rpt { status = rejected }, events)

unfoldable pub replace_order :
    Book → ReplaceRequest → Timestamp → Option (Book × ExecutionReport × List BookEvent)
replace_order b req ts = elim (cancel_order b req.order_id ts) [
  | none ↦ none
  | some out ↦ some (resubmit req ts out)
]
