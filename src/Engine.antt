-- ===== src/Engine.antt =====
-- The matching engine of `src/market/matching_engine.hpp` and `src/market/matching_engine.cpp`. The
-- times that `clock_.now()` returns are arguments: `ts` in a handler, and `later` where the handler
-- publishes market data. The calls of the callbacks are the list of events that a handler returns.
pub mod Books
pub mod Service
pub mod Setup
pub mod Tests
use mathlib.Core.Option
use hft_sdk.Base.{
  Bool, List, Option, [], erase, false, if◌then◌else◌, insert, lookup, ltb_ℤ, map, none, not, pos,
  some, true, u64_mod, ℕ, ◌%◌, ◌&&◌, ◌++◌, ◌+◌, ◌==◌, ◌∷◌,
}
use hft_sdk.Types.{
  CancelRequest, DepthSnapshot, ExecutionReport, Order, OrderId, RejectReason, ReplaceRequest,
  Symbol, Timestamp, TopOfBook, Trade, default_depth, default_report, default_tob, empty_symbol,
  is_canceled, is_filled, is_no_reason, is_rejected, no_reason, rejected, unknown_symbol,
}
use hft_sdk.L3Book.{Book, BookEvent, on_trade, on_top_of_book, init}
use hft_sdk.L3Book.Ops.{add_order, cancel_order, replace_order}
use hft_sdk.Risk.{RiskEngine, check_order, on_fill}
use hft_sdk.Feeds.{L1Feed, new_feed, update_feed, feed_trade, snapshot, default_l2_depth}

-- `SymbolState`; of the aggregator only its depth is state.
pub record SymbolState : Type 0 where
  pub book : Book
  pub l2 : ℕ
  pub l1 : L1Feed

pub record MatchingEngine : Type 0 where
  pub symbols : List (Symbol × SymbolState)
  pub order_symbol_index : List (OrderId × Symbol)
  pub risk_engine : Option RiskEngine
  pub orders_processed : ℕ
  pub trades_generated : ℕ
  pub cancels_processed : ℕ
  pub rejects : ℕ

-- A call of `exec_cb_`, `trade_cb_`, `l1_cb_` or `l2_cb_`.
pub data EngineEvent : Type 0 where
  on_execution : ExecutionReport → EngineEvent
  on_engine_trade : Trade → EngineEvent
  on_l1_update : TopOfBook → EngineEvent
  on_l2_update : DepthSnapshot → EngineEvent

abbrev pub new_matching_engine : Option RiskEngine → MatchingEngine
new_matching_engine risk = record {
  symbols = [];
  order_symbol_index = [];
  risk_engine = risk;
  orders_processed = 0;
  trades_generated = 0;
  cancels_processed = 0;
  rejects = 0;
}

abbrev pub set_symbol : Symbol → SymbolState → MatchingEngine → MatchingEngine
set_symbol symbol st e = record e { symbols = insert symbol st e.symbols }

abbrev pub fresh_symbol : Symbol → SymbolState
fresh_symbol symbol = record { book = init symbol; l2 = default_l2_depth; l1 = new_feed }

unfoldable pub add_symbol : MatchingEngine → Symbol → MatchingEngine
add_symbol e symbol = elim (lookup symbol e.symbols) [
  | none ↦ set_symbol symbol (fresh_symbol symbol) e
  | some st ↦ e
]

unfoldable pub has_symbol : MatchingEngine → Symbol → Bool
has_symbol e symbol = elim (lookup symbol e.symbols) [ none ↦ false | some st ↦ true ]

-- The trade callback that `add_symbol` gives to a book.
unfoldable pub count_trade : MatchingEngine → Trade → MatchingEngine
count_trade e t =
    let e' = record e { trades_generated = (e.trades_generated + 1) % u64_mod } in
    elim (lookup t.symbol e.symbols) [
      | none ↦ e'
      | some st ↦ set_symbol t.symbol (record st { l1 = feed_trade st.l1 t.price t.qty }) e'
    ]

-- What the callbacks of a book do with its events.
unfoldable pub handle_events : MatchingEngine → List BookEvent → MatchingEngine
handle_events e [] = e
handle_events e (on_trade t ∷ events) = handle_events (count_trade e t) events
handle_events e (on_top_of_book tob ∷ events) = handle_events e events

abbrev pub forward : BookEvent → EngineEvent
forward (on_trade t) = on_engine_trade t
forward (on_top_of_book tob) = on_l1_update tob

-- The engine after a call of the book of `symbol`, whose state was `st`.
unfoldable pub absorb :
    MatchingEngine → Symbol → SymbolState → Book → List BookEvent → MatchingEngine
absorb e symbol st b events = handle_events (set_symbol symbol (record st { book = b }) e) events

unfoldable pub publish_market_data :
    MatchingEngine → Symbol → Timestamp → MatchingEngine × List EngineEvent
publish_market_data e symbol later = elim (lookup symbol e.symbols) [
  | none ↦ (e, [])
  | some st ↦ (
    set_symbol symbol (record st { l1 = update_feed st.l1 st.book later }) e,
    on_l2_update (snapshot st.l2 st.book later) ∷ [],
  )
]

-- The report of an order that the engine rejects.
abbrev pub reject_report : Order → RejectReason → Timestamp → ExecutionReport
reject_report o why ts = record default_report {
  order_id = o.id;
  trader_id = o.trader_id;
  symbol = o.symbol;
  status = rejected;
  reject_reason = why;
  transact_time = ts;
}

abbrev pub reject_order :
    MatchingEngine
    → Order
    → RejectReason
    → Timestamp
    → MatchingEngine × ExecutionReport × List EngineEvent
reject_order e o why ts =
    let rpt = reject_report o why ts in
    (record e { rejects = (e.rejects + 1) % u64_mod }, rpt, on_execution rpt ∷ [])

-- The risk check, where there is a risk engine.
unfoldable pub check_risk : Option RiskEngine → Order → Option RiskEngine × RejectReason
check_risk none o = (none, no_reason)
check_risk (some r) o = let (r', verdict) = check_order r o in (some r', verdict)

unfoldable pub track_order : MatchingEngine → Order → ExecutionReport → MatchingEngine
track_order e o rpt =
    if not (is_rejected rpt.status) && not (is_filled rpt.status)
    then record e { order_symbol_index = insert o.id o.symbol e.order_symbol_index }
    else e

unfoldable pub fill_risk : MatchingEngine → Order → ExecutionReport → MatchingEngine
fill_risk e o rpt = elim e.risk_engine [
  | none ↦ e
  | some r ↦
      if ltb_ℤ (pos 0) rpt.filled_qty
      then record e { risk_engine = some (on_fill r o.trader_id o.symbol o.side rpt.filled_qty) }
      else e
]

-- The rest of `process_new_order`, from the submission to the book on.
unfoldable pub submit :
    MatchingEngine
    → SymbolState
    → Order
    → Timestamp
    → Timestamp
    → MatchingEngine × ExecutionReport × List EngineEvent
submit e st o ts later =
    let (b, rpt, events) = add_order st.book o ts in
    let e' = fill_risk (track_order (absorb e o.symbol st b events) o rpt) o rpt in
    let (e'', published) = publish_market_data e' o.symbol later in
    (e'', rpt, map forward events ++ on_execution rpt ∷ published)

unfoldable pub process_new_order :
    MatchingEngine
    → Order
    → Timestamp
    → Timestamp
    → MatchingEngine × ExecutionReport × List EngineEvent
process_new_order e o ts later =
    let e0 = record e { orders_processed = (e.orders_processed + 1) % u64_mod } in
    elim (lookup o.symbol e.symbols) [
      | none ↦ reject_order e0 o unknown_symbol ts
      | some st ↦
          (let (risk, verdict) = check_risk e.risk_engine o in
            let e1 = record e0 { risk_engine = risk } in
            if is_no_reason verdict then submit e1 st o ts later else reject_order e1 o verdict ts)
    ]

-- The symbol of the book that a cancellation goes to, by the order index if the request has none.
unfoldable pub route : MatchingEngine → CancelRequest → Option Symbol
route e c =
    if c.symbol == empty_symbol then lookup c.order_id e.order_symbol_index else some c.symbol

abbrev pub refuse : OrderId → RejectReason → Timestamp → ExecutionReport
refuse i why ts = record default_report {
  order_id = i;
  status = rejected;
  reject_reason = why;
  transact_time = ts;
}

-- The end of `process_cancel`, after the book has answered.
unfoldable pub finish_cancel :
    MatchingEngine
    → SymbolState
    → Symbol
    → OrderId
    → Timestamp
    → Book × ExecutionReport × List BookEvent
    → MatchingEngine × ExecutionReport × List EngineEvent
finish_cancel e st symbol i later (b, rpt, events) =
    let e' = absorb e symbol st b events in
    let e'' =
      if is_canceled rpt.status
      then record e' {
        cancels_processed = (e'.cancels_processed + 1) % u64_mod;
        order_symbol_index = erase i e'.order_symbol_index;
      }
      else e' in
    let (e''', published) = publish_market_data e'' symbol later in
    (e''', rpt, map forward events ++ on_execution rpt ∷ published)

-- `none` is a read of the book through a dangling iterator.
unfoldable pub process_cancel :
    MatchingEngine
    → CancelRequest
    → Timestamp
    → Timestamp
    → Option (MatchingEngine × ExecutionReport × List EngineEvent)
process_cancel e c ts later = elim (route e c) [
  | none ↦ some (e, refuse c.order_id no_reason ts, [])
  | some symbol ↦ elim (lookup symbol e.symbols) [
    | none ↦ some (e, refuse c.order_id unknown_symbol ts, [])
    | some st ↦
        Option.map (finish_cancel e st symbol c.order_id later) (cancel_order st.book c.order_id ts)
  ]
]

unfoldable pub finish_replace :
    MatchingEngine
    → SymbolState
    → Symbol
    → Timestamp
    → Book × ExecutionReport × List BookEvent
    → MatchingEngine × ExecutionReport × List EngineEvent
finish_replace e st symbol later (b, rpt, events) =
    let (e', published) = publish_market_data (absorb e symbol st b events) symbol later in
    (e', rpt, map forward events ++ on_execution rpt ∷ published)

unfoldable pub process_replace :
    MatchingEngine
    → ReplaceRequest
    → Timestamp
    → Timestamp
    → Option (MatchingEngine × ExecutionReport × List EngineEvent)
process_replace e req ts later = elim (lookup req.symbol e.symbols) [
  | none ↦ some (e, refuse req.order_id unknown_symbol ts, [])
  | some st ↦ Option.map (finish_replace e st req.symbol later) (replace_order st.book req ts)
]

unfoldable pub get_top_of_book : MatchingEngine → Symbol → TopOfBook
get_top_of_book e symbol = elim (lookup symbol e.symbols) [
  | none ↦ default_tob
  | some st ↦ st.l1.last_tob
]

unfoldable pub get_depth : MatchingEngine → Symbol → Timestamp → DepthSnapshot
get_depth e symbol ts = elim (lookup symbol e.symbols) [
  | none ↦ default_depth
  | some st ↦ snapshot st.l2 st.book ts
]

unfoldable pub get_book : MatchingEngine → Symbol → Option Book
get_book e symbol = Option.map (λ st. st.book) (lookup symbol e.symbols)
