-- ===== src/Engine/Tests.antt =====
-- Runs of the matching engine on small inputs, and the witnesses of its theorems.
use hft_sdk.Base.{List, [], abs_ℤ, arith, insert, lookup, none, pos, refl, some, ◌∷◌, ◌≡◌}
use hft_sdk.Types.{Order, Quantity, default_order, sell}
use hft_sdk.L3Book.Runs.{runs}
use hft_sdk.Risk.{
  new_engine, get_limits, get_state, put_state, position, moved, is_killed, check_kill_switch,
  check_price_validity, check_quantity_validity, position_verdict, check_position_limit,
  drop_expired, check_rate_limit, check_order, on_fill,
}
use hft_sdk.Risk.Orders.{IsAcceptable}
use hft_sdk.Feeds.{push_bounded, update_feed, feed_trade, overlay, snapshot}
use hft_sdk.Engine.{
  MatchingEngine, new_matching_engine, fresh_symbol, add_symbol, count_trade, handle_events, absorb,
  publish_market_data, check_risk, track_order, fill_risk, submit, process_new_order,
}
use hft_sdk.Engine.Service.{
  Request, adds_symbol, adds_symbol_id, binds_risk, submits, withdraws, IsServed, serve,
  serve-new_matching_engine, Gated, process_new_order-Gated,
}

engine_runs : Unit {0}
unfolding runs get_limits get_state put_state position moved is_killed check_kill_switch
    check_price_validity check_quantity_validity position_verdict check_position_limit drop_expired
    check_rate_limit check_order on_fill push_bounded update_feed feed_trade overlay snapshot
    add_symbol count_trade handle_events absorb publish_market_data check_risk track_order fill_risk
    submit process_new_order lookup insert abs_ℤ
engine_runs = tt

abbrev sell_order : Quantity → Order
sell_order q = record default_order {
  id = 1;
  trader_id = 4;
  symbol = 7;
  side = sell;
  price = pos 100;
  quantity = q;
}

abbrev buy_order_2 : Order
buy_order_2 = record default_order {
  id = 2;
  trader_id = 5;
  symbol = 7;
  price = pos 101;
  quantity = pos 3;
}

abbrev ready : MatchingEngine
ready = add_symbol (new_matching_engine (some new_engine)) 7

abbrev quoted : MatchingEngine
quoted = (process_new_order ready (sell_order (pos 5)) 10 11).0

traded_once : (process_new_order quoted buy_order_2 12 13).0.trades_generated ≡ 1
unfolding engine_runs
traded_once = refl

abbrev requests : List Request
requests =
    adds_symbol 7
    ∷ binds_risk none
    ∷ adds_symbol_id (65 ∷ 66 ∷ [])
    ∷ submits (sell_order (pos 5)) 10 11
    ∷ submits buy_order_2 12 13
    ∷ withdraws
        (record { order_id = 1; trader_id = 4; symbol = 0; submit_time = 14; cl_ord_id = [] }) 14 15
    ∷ []

serve-new_matching_engine_example :
    IsServed (serve (new_matching_engine (some new_engine)) requests)
serve-new_matching_engine_example = serve-new_matching_engine (some new_engine) requests

too_large : ¬ IsAcceptable new_engine (sell_order (pos 10001))
unfolding engine_runs
too_large a = absurd (omega (arith, a.position_room))

ready_risk : ready.risk_engine ≡ some new_engine
unfolding engine_runs
ready_risk = refl

ready_symbol : lookup 7 ready.symbols ≡ some (fresh_symbol 7)
unfolding engine_runs
ready_symbol = refl

process_new_order-Gated_example :
    Gated ready
      (sell_order (pos 10001))
      10
      (check_order new_engine (sell_order (pos 10001))).1
      (process_new_order ready (sell_order (pos 10001)) 10 11)
process_new_order-Gated_example =
    process_new_order-Gated ready (sell_order (pos 10001)) 10 11 new_engine (fresh_symbol 7)
      ready_risk ready_symbol too_large
