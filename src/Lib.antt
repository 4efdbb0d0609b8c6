-- ===== src/Lib.antt =====
-- HFT-sdk: the order book, the matching engine, the pre-trade risk checks, the ring buffer and what is
-- built on it, the trade engine and the memory pool.
--
-- A client sends orders, cancellations and replacements to the matching engine
-- (src/market/matching_engine.cpp), which asks the risk engine (src/risk/risk_engine.cpp) about each new
-- order, passes what it accepts to the L3 book of the symbol (src/orderbook/l3_order_book.cpp), and
-- publishes the reports, the trades and the market data (src/orderbook/l1_feed.cpp,
-- src/orderbook/l2_aggregator.cpp). The market data engine (src/market/market_data_engine.cpp) passes
-- market data on to another thread through the ring buffer (src/HPRingBuffer.hpp), and the trade engine
-- (src/market/trade_engine.cpp) keeps the positions that the trades leave.
--
--   - Base: tests into Bool, lists, integers and maps as lists of pairs.
--   - Types: src/common/types.hpp. Types/Symbols and Hashing: the strings and the hash of a symbol.
--   - Publisher: src/market/market_data_publisher.cpp.
--   - L3Book: the state of the book. L3Book/Levels, Match, Query and Ops are its operations: `add_order`,
--     `cancel_order`, `replace_order`, `match_incoming` and `match_against` as in the source, and the
--     queries. The bids and the asks are lists of levels in the order of the map; a list iterator of the
--     index is the id of its node, and a read through an iterator whose node is gone is `none`.
--   - L3Book/Fills, Trades, Fok and Priority: what matching trades. Offers is the reference of Priority.
--     Steps holds the inductions over its two loops.
--   - L3Book/Valid and its children: the invariant of a book and that every operation keeps it. Sides,
--     Edits, Locate, Counts and Reindex are its parts: the sides, the changes of one queue, where an order
--     rests, how many do, and the index after an erasure.
--   - Feeds: the L1 feed and the L2 aggregator of a book. Histories: what the L1 feed keeps.
--   - Benchmark: src/benchmark_p99.hpp, over any callable, clock and sort. Ranks is about the percentiles,
--     and Sorting states what a sort is.
--   - Risk: the state, the checks and the updates of the risk engine. Risk/Orders, Effects, Fills and
--     Kills are about the checks, what they change, the positions and the kill switches.
--   - Engine: the handlers of the matching engine. Engine/Setup: its risk engine, symbols by name and
--     callbacks. Engine/Books and Service: the books of all symbols over a history of requests, and the
--     risk gate.
--   - Ring: src/HPRingBuffer.hpp, its two sequences on 64 bits. Ring/Slots is their arithmetic and
--     Ring/Queue the refinement to a bounded queue, which Ring/Contents states for the list of the items.
--   - Ring/Spsc: one producer and one consumer on the ring, as a step relation. A step is one access to
--     the sequences or to the buffer, and the accesses are in one total order, which the acquire and
--     release pairs of the source give for what each thread reads. Invariant, Safety and Progress are
--     about the states that can be reached.
--   - OrderBook: the simple book of src/market/order_book.cpp. Valid and its children: the invariant of the
--     book and its index, which each call keeps. Offers, Written and Agreement: its matching against that
--     of the L3 book. Loops: the loops of its matching on fuel. Quantities: what they trade.
--   - MarketData: the market data engine. Outboxes is its abstract specification, a bounded list of what
--     waits; Drain is about `process_pending` and Throttle about `should_throttle`.
--   - TradeEngine: the positions and the totals, over any arithmetic of `double`, which Base/Double
--     declares. Positions and Balance are about the net positions.
--   - MemoryPool: src/common/memory_pool.hpp, used by one thread. Free is its invariant, Built a new pool,
--     and Calls the refinement to a stack of free slots. MemoryPool/Threads: one thread that allocates and
--     one that deallocates, as schedules of moves, each one access to the memory that both see. Invariant,
--     Changes, Knowledge and Steps say what the moves keep, and Safety what that is for the client.
--   - Histogram: src/metrics/latency_histogram.hpp, for any number and width of the buckets. Percentiles
--     and Extremes are about a histogram of a list of samples, and Edges about the buckets as ranges.
--   - Telemetry: src/metrics/telemetry.cpp, less its printed reports. Timers is about the named timers,
--     and Timers/Words about the search for a word in a name.
--   - Clock: src/common/clock.cpp. Calls is about its time after a sequence of calls.
--   - LatencyModel: src/latency/latency_model.cpp, over any generator of random numbers. Bounds is about
--     its samples.
--   - ScopeTimer: the named timers of src/ScopeTimer.hpp. Slots is about their slots.
--   - The modules called Tests hold runs on small inputs.
--
-- Identifiers, times and counters are natural numbers, with the wrap-around of `uint64_t`, `uint32_t` and
-- `size_t` written out where the source counts. Prices and quantities are integers without bound, since
-- the overflow of `int64_t` is undefined in the source; `/` truncates towards zero. A symbol is its eight
-- bytes as one number. The clock's times are arguments. A callback is an event in the result of the
-- operation that calls it, for all callbacks that a client may register. Loops are recursions on the
-- lists that they walk, except that of `process_pending`, which runs on fuel: the ring holds at most 16383
-- messages, so 16384 rounds are enough, and those of `match_loops`, for which fuel above the number of
-- levels and the lengths of their queues is enough. The blocking calls of the ring are steps that are done
-- again.
--
-- Not modelled: the memory pool with several threads that allocate, where its list has the ABA problem,
-- and the wait strategies (src/wait_strategies.hpp); in what is modelled, the event union of types.hpp,
-- which no other code uses, the objects in the slots of the pool, the timer that logs when it is
-- destroyed, the printed reports, and the self-trade check, which is never called.
pub mod Base
pub mod Benchmark
pub mod Types
pub mod L3Book
pub mod Risk
pub mod Feeds
pub mod Engine
pub mod Ring
pub mod OrderBook
pub mod Publisher
pub mod MarketData
pub mod TradeEngine
pub mod MemoryPool
pub mod Clock
pub mod LatencyModel
pub mod ScopeTimer
pub mod Telemetry
pub mod Histogram
