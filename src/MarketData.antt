-- ===== src/MarketData.antt =====
-- The market data engine of `src/market/market_data_engine.hpp` and
-- `src/market/market_data_engine.cpp`, on the ring buffer. The time that `clock_.now()` returns is an
-- argument. A handler is known by a number, and its calls are the deliveries that `process_pending`
-- returns; no handler calls the engine back.
pub mod Outboxes
pub mod Drain
pub mod Throttle
pub mod Tests
use hft_sdk.Base.{
  Bool, List, Option, [], false, if◌then◌else◌, insert, lookup, ltb, map, none, some, suc, true,
  u64_mod, zero, ℕ, ◌%◌, ◌++◌, ◌+◌, ◌-◌, ◌==◌, ◌∷◌,
}
use hft_sdk.Types.{DepthSnapshot, Symbol, Timestamp, TopOfBook, Trade, default_depth, empty_symbol}
use hft_sdk.Ring.{HpRingBuffer, new_ring, try_push, try_pop}

-- `MDUpdateType` with the member of the union that it selects.
pub data MdUpdate : Type 0 where
  incremental_refresh : TopOfBook → MdUpdate
  snapshot_full : DepthSnapshot → MdUpdate
  trade_report : Trade → MdUpdate

pub record MarketDataMessage : Type 0 where
  pub update : MdUpdate
  pub symbol : Symbol
  pub timestamp : Timestamp

-- `MarketDataMessage()`.
unfoldable pub default_message : MarketDataMessage
default_message = record {
  update = snapshot_full default_depth;
  symbol = empty_symbol;
  timestamp = 0;
}

abbrev pub md_queue_size : ℕ
md_queue_size = 16384

pub record MarketDataEngine : Type 0 where
  pub throttle_ns : ℕ
  pub l2_depth : ℕ
  pub last_publish_time : List (Symbol × Timestamp)
  pub md_queue : HpRingBuffer MarketDataMessage
  pub l1_handlers : List ℕ
  pub l2_handlers : List ℕ
  pub trade_handlers : List ℕ
  pub messages_published : ℕ
  pub messages_throttled : ℕ

unfoldable pub new_md_engine : MarketDataEngine
new_md_engine = record {
  throttle_ns = 0;
  l2_depth = 10;
  last_publish_time = [];
  md_queue = new_ring md_queue_size default_message;
  l1_handlers = [];
  l2_handlers = [];
  trade_handlers = [];
  messages_published = 0;
  messages_throttled = 0;
}

abbrev pub set_throttle_interval_ns : ℕ → MarketDataEngine → MarketDataEngine
set_throttle_interval_ns ns e = record e { throttle_ns = ns }

abbrev pub set_l2_depth : ℕ → MarketDataEngine → MarketDataEngine
set_l2_depth n e = record e { l2_depth = n }

abbrev pub subscribe_l1 : ℕ → MarketDataEngine → MarketDataEngine
subscribe_l1 h e = record e { l1_handlers = e.l1_handlers ++ h ∷ [] }

abbrev pub subscribe_l2 : ℕ → MarketDataEngine → MarketDataEngine
subscribe_l2 h e = record e { l2_handlers = e.l2_handlers ++ h ∷ [] }

abbrev pub subscribe_trades : ℕ → MarketDataEngine → MarketDataEngine
subscribe_trades h e = record e { trade_handlers = e.trade_handlers ++ h ∷ [] }

-- `now - it->second`, on `uint64_t`.
abbrev pub elapsed : Timestamp → Timestamp → ℕ
elapsed now last = (now + u64_mod - last) % u64_mod

-- The times of the last publication after the call, and whether the update is held back.
unfoldable pub should_throttle :
    ℕ → List (Symbol × Timestamp) → Symbol → Timestamp → List (Symbol × Timestamp) × Bool
should_throttle throttle times symbol now =
    if throttle == 0 then (times, false) else elim (lookup symbol times) [
      | none ↦ (insert symbol now times, false)
      | some last ↦
          if ltb (elapsed now last) throttle
          then (times, true)
          else (insert symbol now times, false)
    ]

abbrev pub message : MdUpdate → Symbol → Timestamp → MarketDataMessage
message update symbol now = record { update = update; symbol = symbol; timestamp = now }

-- `(void)md_queue_->try_push(msg)`.
unfoldable pub enqueue_message : MarketDataEngine → MarketDataMessage → MarketDataEngine
enqueue_message e m = record e {
  md_queue = (try_push md_queue_size default_message m e.md_queue).0;
}

-- What `on_tob_update` and `on_depth_update` share.
unfoldable pub on_update : MarketDataEngine → MdUpdate → Symbol → Timestamp → MarketDataEngine
on_update e update symbol now =
    let (times, held) = should_throttle e.throttle_ns e.last_publish_time symbol now in
    let e' = record e { last_publish_time = times } in
    if held
    then record e' { messages_throttled = (e'.messages_throttled + 1) % u64_mod }
    else enqueue_message e' (message update symbol now)

abbrev pub on_tob_update : MarketDataEngine → TopOfBook → Timestamp → MarketDataEngine
on_tob_update e tob now = on_update e (incremental_refresh tob) tob.symbol now

abbrev pub on_depth_update : MarketDataEngine → DepthSnapshot → Timestamp → MarketDataEngine
on_depth_update e depth now = on_update e (snapshot_full depth) depth.symbol now

-- Trades are never held back.
abbrev pub on_md_trade : MarketDataEngine → Trade → Timestamp → MarketDataEngine
on_md_trade e t now = enqueue_message e (message (trade_report t) t.symbol now)

-- A call of a handler.
pub record Delivery : Type 0 where
  pub handler : ℕ
  pub update : MdUpdate

abbrev pub handlers_of : MarketDataEngine → MdUpdate → List ℕ
handlers_of e (incremental_refresh tob) = e.l1_handlers
handlers_of e (snapshot_full depth) = e.l2_handlers
handlers_of e (trade_report t) = e.trade_handlers

-- The `switch` of `process_pending`.
abbrev pub deliver : MarketDataEngine → MarketDataMessage → List Delivery
deliver e m = map (λ h. record { handler = h; update = m.update }) (handlers_of e m.update)

-- The loop of `process_pending`, on fuel: `none` is a loop that has not ended.
unfoldable pub process_pending : ℕ → MarketDataEngine → Option (MarketDataEngine × List Delivery)
process_pending zero e = none
process_pending (suc fuel) e =
    let (queue, popped) = try_pop md_queue_size default_message e.md_queue in
    elim popped [
      | none ↦ some (record e { md_queue = queue }, [])
      | some m ↦
          elim (process_pending fuel (record e {
            md_queue = queue;
            messages_published = (e.messages_published + 1) % u64_mod;
          })) [ none ↦ none | some (e', deliveries) ↦ some (e', deliver e m ++ deliveries) ]
    ]
