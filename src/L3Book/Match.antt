-- ===== src/L3Book/Match.antt =====
-- The matching of `l3_order_book.cpp`: `match_against` as a loop over the levels around a loop over
-- a queue, and `match_incoming` with its check of a fill-or-kill order.
use hft_sdk.Base.{
  Bool, List, [], erase, false, if◌then◌else◌, leb_ℤ, ltb_ℤ, min_ℤ, not, pos, true, u64_mod, ℕ, ◌%◌,
  ◌&&◌, ◌++◌, ◌+ℤ◌, ◌+◌, ◌-ℤ◌, ◌-◌, ◌==ℤ◌, ◌∷◌,
}
use hft_sdk.Types.{
  Order, Price, Quantity, Side, Symbol, TimeInForce, Timestamp, Trade, buy, fok, is_buy, is_limit,
  sell,
}
use hft_sdk.L3Book.{L3Order, Levels, Ledger, Book, Progress, MatchResult}
use hft_sdk.L3Book.Levels.{level}

-- What a resting order still offers.
abbrev pub open_qty : L3Order → Quantity
open_qty o = o.visible_qty +ℤ o.hidden_qty

-- The price check that ends the loop for a limit order.
unfoldable pub breaks_at : Order → Price → Bool
breaks_at incoming p =
    is_limit incoming.type
    && (if is_buy incoming.side then ltb_ℤ incoming.price p else ltb_ℤ p incoming.price)

abbrev pub trade_of : Symbol → Order → Timestamp → Price → L3Order → Quantity → ℕ → Trade
trade_of symbol incoming ts level_price resting match_qty trade_id = record {
  trade_id = trade_id;
  resting_id = resting.id;
  incoming_id = incoming.id;
  resting_trader = resting.trader_id;
  incoming_trader = incoming.trader_id;
  symbol = symbol;
  aggressor_side = incoming.side;
  price = level_price;
  qty = match_qty;
  match_timestamp_ns = ts;
}

-- The visible part is taken first, then the hidden one.
unfoldable pub take_qty : Quantity → L3Order → L3Order
take_qty match_qty o =
    if leb_ℤ match_qty o.visible_qty
    then record o {
      filled_qty = o.filled_qty +ℤ match_qty;
      visible_qty = o.visible_qty -ℤ match_qty;
    }
    else record o {
      filled_qty = o.filled_qty +ℤ match_qty;
      visible_qty = pos 0;
      hidden_qty = o.hidden_qty -ℤ (match_qty -ℤ o.visible_qty);
    }

-- An iceberg with nothing on display shows up to 100 more.
unfoldable pub replenish : L3Order → L3Order
replenish o =
    if o.visible_qty ==ℤ pos 0 && ltb_ℤ (pos 0) o.hidden_qty && o.is_iceberg
    then record o {
      visible_qty = min_ℤ o.hidden_qty (pos 100);
      hidden_qty = o.hidden_qty -ℤ min_ℤ o.hidden_qty (pos 100);
    }
    else o

abbrev pub is_done : L3Order → Bool
is_done o = open_qty o ==ℤ pos 0

-- `--bid_order_count_` or `--ask_order_count_`, on `size_t`.
abbrev pub count_down : Side → Ledger → Ledger
count_down buy g = record g { bid_order_count = (g.bid_order_count + u64_mod - 1) % u64_mod }
count_down sell g = record g { ask_order_count = (g.ask_order_count + u64_mod - 1) % u64_mod }

-- A filled order leaves the index and the count of its side.
unfoldable pub drop_done : L3Order → Ledger → Ledger
drop_done o g =
    if is_done o then count_down o.side (record g { order_index = erase o.id g.order_index }) else g

abbrev pub keep_node : L3Order → List L3Order → List L3Order
keep_node o q = if is_done o then q else o ∷ q

-- An empty level is erased.
abbrev pub keep_level : Price → List L3Order → Levels → Levels
keep_level p [] ls = ls
keep_level p (o ∷ q) ls = level p (o ∷ q) ∷ ls

-- The quantity of the next trade with a resting order.
abbrev pub match_qty : L3Order → Progress → Quantity
match_qty o s = min_ℤ s.remaining (open_qty o)

-- The resting order after that trade.
unfoldable pub resting_after : L3Order → Progress → L3Order
resting_after o s = replenish (take_qty (match_qty o s) o)

module _ (symbol : Symbol) (incoming : Order) (ts : Timestamp) where
  -- The trade is recorded, and the remaining quantity reduced.
  unfoldable pub record_trade : Price → L3Order → Progress → Progress
  record_trade p o s = record {
    remaining = s.remaining -ℤ match_qty o s;
    trades = s.trades ++ trade_of symbol incoming ts p o (match_qty o s) s.next_trade_id ∷ [];
    ledger = record (s.ledger) {
      next_trade_id = (s.next_trade_id + 1) % u64_mod;
      trade_count = (s.trade_count + 1) % u64_mod;
      total_volume = s.total_volume +ℤ match_qty o s;
      last_trade_price = p;
    };
  }

  -- One turn of the inner loop, the queue apart.
  unfoldable pub match_one : Price → L3Order → Progress → Progress
  match_one p o s =
      let s' = record_trade p o s in record s' { ledger = drop_done (resting_after o s) s'.ledger }

  -- The inner loop: the queue of the level at price `p`.
  unfoldable pub match_queue : Price → List L3Order → Progress → List L3Order × Progress
  match_queue p [] s = ([], s)
  match_queue p (o ∷ q) s =
      if ltb_ℤ (pos 0) s.remaining
      then (let (q', s') = match_queue p q (match_one p o s) in
          (keep_node (resting_after o s) q', s'))
      else (o ∷ q, s)

  -- The outer loop.
  unfoldable pub match_against : Levels → Progress → Levels × Progress
  match_against [] s = ([], s)
  match_against (l ∷ ls) s =
      if ltb_ℤ (pos 0) s.remaining && not (breaks_at incoming l.price)
      then (let (q', s') = match_queue l.price l.queue s in
          let (ls', s'') = match_against ls s' in (keep_level l.price q' ls', s''))
      else (l ∷ ls, s)

-- The quantity on one queue, added to what was counted before.
unfoldable pub queue_available : List L3Order → Quantity → Quantity
queue_available [] available = available
queue_available (o ∷ q) available = queue_available q (available +ℤ open_qty o)

-- The quantity that a fill-or-kill order may reach, counted until there is enough.
unfoldable pub available_for : Order → Levels → Quantity → Quantity
available_for incoming [] available = available
available_for incoming (l ∷ ls) available =
    if breaks_at incoming l.price
    then available
    else (let counted = queue_available l.queue available in
        let rest = available_for incoming ls counted in
        if leb_ℤ incoming.quantity counted then counted else rest)

abbrev pub is_fok : TimeInForce → Bool
is_fok fok = true
is_fok _ = false

-- The side that an incoming order trades against.
abbrev pub opposite : Book → Side → Levels
opposite b buy = b.asks
opposite b sell = b.bids

abbrev pub with_opposite : Book → Side → Levels → Ledger → Book
with_opposite b buy ls g = record b { asks = ls; ledger = g }
with_opposite b sell ls g = record b { bids = ls; ledger = g }

-- The fill-or-kill check fails.
unfoldable pub cannot_fill : Book → Order → Bool
cannot_fill b o = is_fok o.tif && ltb_ℤ (available_for o (opposite b o.side) (pos 0)) o.quantity

abbrev pub start : Book → Order → Progress
start b o = record { remaining = o.quantity; trades = []; ledger = b.ledger }

-- The loops over the opposite side.
unfoldable pub run_match : Book → Order → Timestamp → Levels × Progress
run_match b o ts = match_against b.symbol o ts (opposite b o.side) (start b o)

unfoldable pub match_incoming : Book → Order → Timestamp → Book × MatchResult
match_incoming b o ts =
    if cannot_fill b o
    then (b, record { trades = []; remaining_qty = o.quantity; fully_filled = false })
    else (let (ls, s) = run_match b o ts in
        (
          with_opposite b o.side ls s.ledger,
          record {
            trades = s.trades;
            remaining_qty = s.remaining;
            fully_filled = s.remaining ==ℤ pos 0;
          },
        ))
