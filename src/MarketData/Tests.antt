-- ===== src/MarketData/Tests.antt =====
-- A feed of two updates and a trade, and the witnesses of the theorems on `market_data_engine.cpp`.
use hft_sdk.Base.{List, [], arith, refl, ◌∷◌}
use hft_sdk.Types.{default_depth}
use hft_sdk.Ring.Contents.{new_ring-Contents}
use hft_sdk.MarketData.{
  MarketDataEngine, new_md_engine, md_queue_size, default_message, process_pending, should_throttle,
  set_throttle_interval_ns, subscribe_l1,
}
use hft_sdk.MarketData.Drain.{Published, process_pending-Published}
use hft_sdk.MarketData.Outboxes.{FeedCall, feeds_depth, feed_all, Outbox, offer_all, Implements}
use hft_sdk.MarketData.Throttle.{Throttles, should_throttle-Throttles}

abbrev started : MarketDataEngine
started = subscribe_l1 3 (set_throttle_interval_ns 100 new_md_engine)

abbrev nothing_waits : Outbox
nothing_waits = record { times = []; held_back = 0; waiting = [] }

started-Implements : Implements started nothing_waits
unfolding new_md_engine
started-Implements = record {
  queue = new_ring-Contents md_queue_size default_message;
  times = refl;
  held_back = refl;
}

abbrev two_updates : List FeedCall
two_updates = feeds_depth default_depth 1000 ∷ feeds_depth default_depth 1050 ∷ []

process_pending-Published_example :
    Published started
      (offer_all 100 nothing_waits two_updates)
      (process_pending 16384 (feed_all started two_updates))
process_pending-Published_example =
    process_pending-Published started nothing_waits two_updates 16384 started-Implements
      (omega arith)

should_throttle-Throttles_example :
    Throttles 100 ((7, 1000) ∷ []) 7 1050 (should_throttle 100 ((7, 1000) ∷ []) 7 1050)
should_throttle-Throttles_example = should_throttle-Throttles 100 ((7, 1000) ∷ []) 7 1050
