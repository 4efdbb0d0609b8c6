-- ===== src/Types.antt =====
-- src/common/types.hpp: the enumerations and the plain structures that all parts share.
--
-- `Price` and `Quantity` are int64_t, whose overflow is undefined behaviour in C++: they are
-- unbounded integers here, and no theorem speaks of a run that overflows. `OrderId`, `TraderId` and
-- `Timestamp` are uint64_t: numbers below 2 ^ 64, with the wrap-around written where the code
-- computes with them. A `Symbol` is its eight bytes read as one number, as `SymbolHash` reads them
-- on a little-endian machine;
-- the code only compares it, and the default `Symbol()`, eight zero bytes, is 0. A `char[20]` is the
-- list of its bytes, which are only copied.
pub mod Hashing
pub mod Symbols
pub mod Tests
use hft_sdk.Base.{Bool, List, false, pos, replicate, true, ℕ, ℤ}

abbrev pub OrderId : Type 0
OrderId = ℕ

abbrev pub TraderId : Type 0
TraderId = ℕ

abbrev pub Price : Type 0
Price = ℤ

abbrev pub Quantity : Type 0
Quantity = ℤ

abbrev pub Timestamp : Type 0
Timestamp = ℕ

abbrev pub Symbol : Type 0
Symbol = ℕ

-- `Symbol()`.
abbrev pub empty_symbol : Symbol
empty_symbol = 0

pub data OrderStatus : Type 0 where
  new partially_filled filled canceled rejected pending_cancel pending_replace : OrderStatus

pub data RejectReason : Type 0 where
  no_reason unknown_symbol invalid_price invalid_quantity position_limit : RejectReason
  rate_limit self_trade_prevention kill_switch_active duplicate_order_id : RejectReason
  insufficient_liquidity : RejectReason

pub data Side : Type 0 where
  buy sell : Side

pub data OrderType : Type 0 where
  limit market : OrderType

pub data TimeInForce : Type 0 where
  day ioc fok gtc : TimeInForce

-- `o.type == OrderType::Limit`.
abbrev pub is_limit : OrderType → Bool
is_limit limit = true
is_limit market = false

abbrev pub is_buy : Side → Bool
is_buy buy = true
is_buy sell = false

abbrev pub is_rejected : OrderStatus → Bool
is_rejected rejected = true
is_rejected _ = false

abbrev pub is_filled : OrderStatus → Bool
is_filled filled = true
is_filled _ = false

abbrev pub is_canceled : OrderStatus → Bool
is_canceled canceled = true
is_canceled _ = false

abbrev pub is_new : OrderStatus → Bool
is_new new = true
is_new _ = false

abbrev pub is_no_reason : RejectReason → Bool
is_no_reason no_reason = true
is_no_reason _ = false

pub record Order : Type 0 where
  pub id : OrderId
  pub trader_id : TraderId
  pub symbol : Symbol
  pub side : Side
  pub type : OrderType
  pub tif : TimeInForce
  pub price : Price
  pub quantity : Quantity
  pub filled_qty : Quantity
  pub status : OrderStatus
  pub submit_time : Timestamp
  pub accept_time : Timestamp
  pub queue_position : ℕ
  pub cl_ord_id : List ℕ

-- `Order{}`.
abbrev pub default_order : Order
default_order = record {
  id = 0;
  trader_id = 0;
  symbol = empty_symbol;
  side = buy;
  type = limit;
  tif = day;
  price = pos 0;
  quantity = pos 0;
  filled_qty = pos 0;
  status = new;
  submit_time = 0;
  accept_time = 0;
  queue_position = 0;
  cl_ord_id = replicate 20 0;
}

-- A `std::string` is the list of its bytes.
abbrev pub SymbolId : Type 0
SymbolId = List ℕ

pub record NewOrder : Type 0 where
  pub id : OrderId
  pub trader : TraderId
  pub symbol : SymbolId
  pub side : Side
  pub type : OrderType
  pub tif : TimeInForce
  pub price : Price
  pub qty : Quantity

pub record CancelRequest : Type 0 where
  pub order_id : OrderId
  pub trader_id : TraderId
  pub symbol : Symbol
  pub submit_time : Timestamp
  pub cl_ord_id : List ℕ

pub record ReplaceRequest : Type 0 where
  pub order_id : OrderId
  pub trader_id : TraderId
  pub symbol : Symbol
  pub new_price : Price
  pub new_qty : Quantity
  pub submit_time : Timestamp
  pub cl_ord_id : List ℕ
  pub orig_cl_ord_id : List ℕ

pub record Trade : Type 0 where
  pub trade_id : ℕ
  pub resting_id : OrderId
  pub incoming_id : OrderId
  pub resting_trader : TraderId
  pub incoming_trader : TraderId
  pub symbol : Symbol
  pub aggressor_side : Side
  pub price : Price
  pub qty : Quantity
  pub match_timestamp_ns : Timestamp

pub record BookLevel : Type 0 where
  pub price : Price
  pub qty : Quantity
  pub order_count : ℕ

-- `BookLevel{}`, as in a value-initialised snapshot.
abbrev pub default_level : BookLevel
default_level = record { price = pos 0; qty = pos 0; order_count = 0 }

pub record TopOfBook : Type 0 where
  pub symbol : Symbol
  pub best_bid : BookLevel
  pub best_ask : BookLevel
  pub mid_price : Price
  pub micro_price : Price
  pub spread : Price
  pub timestamp : Timestamp
  pub valid : Bool

abbrev pub default_tob : TopOfBook
default_tob = record {
  symbol = empty_symbol;
  best_bid = default_level;
  best_ask = default_level;
  mid_price = pos 0;
  micro_price = pos 0;
  spread = pos 0;
  timestamp = 0;
  valid = false;
}

pub record ExecutionReport : Type 0 where
  pub order_id : OrderId
  pub trader_id : TraderId
  pub symbol : Symbol
  pub side : Side
  pub type : OrderType
  pub status : OrderStatus
  pub price : Price
  pub order_qty : Quantity
  pub filled_qty : Quantity
  pub last_qty : Quantity
  pub last_price : Price
  pub leaves_qty : Quantity
  pub transact_time : Timestamp
  pub reject_reason : RejectReason
  pub cl_ord_id : List ℕ
  pub exec_id : List ℕ

-- `ExecutionReport rpt{}`.
abbrev pub default_report : ExecutionReport
default_report = record {
  order_id = 0;
  trader_id = 0;
  symbol = empty_symbol;
  side = buy;
  type = limit;
  status = new;
  price = pos 0;
  order_qty = pos 0;
  filled_qty = pos 0;
  last_qty = pos 0;
  last_price = pos 0;
  leaves_qty = pos 0;
  transact_time = 0;
  reject_reason = no_reason;
  cl_ord_id = replicate 20 0;
  exec_id = replicate 20 0;
}

abbrev pub max_depth_levels : ℕ
max_depth_levels = 20

pub record DepthSnapshot : Type 0 where
  pub symbol : Symbol
  pub bids : List BookLevel
  pub asks : List BookLevel
  pub bid_levels : ℕ
  pub ask_levels : ℕ
  pub timestamp : Timestamp

abbrev pub default_depth : DepthSnapshot
default_depth = record {
  symbol = empty_symbol;
  bids = replicate max_depth_levels default_level;
  asks = replicate max_depth_levels default_level;
  bid_levels = 0;
  ask_levels = 0;
  timestamp = 0;
}
