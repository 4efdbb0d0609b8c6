-- ===== src/L3Book.antt =====
-- src/orderbook/l3_order_book.hpp and l3_order_book.cpp: the order book of one symbol, with every
-- order in it. This file has the state, the children the operations and what holds of them.
--
-- A `std::map` from prices to queues is the list of its levels in key order, best price first. An
-- iterator into a queue is the id of the node that it points to: `Location.node`. A callback is not
-- called: each operation returns the list of the calls that it makes, in order; a callback that is
-- not registered drops them.
pub mod Levels
pub mod Match
pub mod Ops
pub mod Query
pub mod Fills
pub mod Steps
pub mod Trades
pub mod Sides
pub mod Edits
pub mod Locate
pub mod Counts
pub mod Reindex
pub mod Valid
pub mod Fok
pub mod Offers
pub mod Priority
pub mod Runs
mod Tests
use hft_sdk.Base.{Bool, List, [], pos, ℕ, ◌*◌}
use hft_sdk.Types.{OrderId, Price, Quantity, Side, Symbol, Timestamp, TopOfBook, Trade, TraderId}

pub record L3Order : Type 0 where
  pub id : OrderId
  pub trader_id : TraderId
  pub side : Side
  pub price : Price
  pub visible_qty : Quantity
  pub hidden_qty : Quantity
  pub filled_qty : Quantity
  pub entry_time : Timestamp
  pub queue_pos : ℕ
  pub is_iceberg : Bool
  pub cl_ord_id : List ℕ

-- One entry of `BidPriceLevels` or `AskPriceLevels`.
pub record Level : Type 0 where
  pub price : Price
  pub queue : List L3Order

abbrev pub Levels : Type 0
Levels = List Level

-- `OrderLocation`.
pub record Location : Type 0 where
  pub side : Side
  pub price : Price
  pub node : OrderId

-- The index and the counters of a book, all that matching changes besides the queues.
pub record Ledger : Type 0 where
  pub order_index : List (OrderId × Location)
  pub trade_count : ℕ
  pub next_trade_id : ℕ
  pub total_volume : Quantity
  pub last_trade_price : Price
  pub bid_order_count : ℕ
  pub ask_order_count : ℕ

pub record Book : Type 0 where
  pub symbol : Symbol
  pub bids : Levels
  pub asks : Levels
  pub ledger : Ledger
  pub open ledger use *

-- The local state of the matching loops: `remaining`, `trades` and the members that they write.
pub record Progress : Type 0 where
  pub remaining : Quantity
  pub trades : List Trade
  pub ledger : Ledger
  pub open ledger use *

pub record MatchResult : Type 0 where
  pub trades : List Trade
  pub remaining_qty : Quantity
  pub fully_filled : Bool

-- A call of `trade_cb_` or of `tob_cb_`.
pub data BookEvent : Type 0 where
  on_trade : Trade → BookEvent
  on_top_of_book : TopOfBook → BookEvent

-- The constructor `L3OrderBook(symbol)`.
unfoldable pub init : Symbol → Book
init symbol = record {
  symbol = symbol;
  bids = [];
  asks = [];
  ledger = record {
    order_index = [];
    trade_count = 0;
    next_trade_id = 1;
    total_volume = pos 0;
    last_trade_price = pos 0;
    bid_order_count = 0;
    ask_order_count = 0;
  };
}
