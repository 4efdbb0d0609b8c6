-- ===== src/TradeEngine/Tests.antt =====
-- The witnesses of the theorems on `trade_engine.cpp`, with integers for `double`.
use hft_sdk.Base.{[], integers, negsuc, pos, refl, ℤ, ◌+ℤ◌, ◌-ℤ◌, ◌∷◌, ◌≡◌}
use hft_sdk.Types.{Trade, buy, sell}
use hft_sdk.TradeEngine.{
  TradeEngine, new_trade_engine, find_position, put_position, same_key, cover_short, average_buy,
  close_long, average_sell, fill_position, update_position, position_at, process_trade,
}
use hft_sdk.TradeEngine.Balance.{
  Settles, process_trade-Settles, process_trades, Squared, process_trades-Squared,
}

abbrev first_trade : Trade
first_trade = record {
  trade_id = 1;
  resting_id = 1;
  incoming_id = 2;
  resting_trader = 4;
  incoming_trader = 5;
  symbol = 7;
  aggressor_side = buy;
  price = pos 100;
  qty = pos 5;
  match_timestamp_ns = 10;
}

abbrev second_trade : Trade
second_trade = record first_trade {
  trade_id = 2;
  aggressor_side = sell;
  price = pos 110;
  qty = pos 8;
}

abbrev started : TradeEngine ℤ
started = new_trade_engine integers

-- The trader who bought 5 and sold 8 is short of 3.
turned_short :
    (position_at integers
      (process_trades integers started (first_trade ∷ second_trade ∷ [])).positions
      (record { trader_id = 5; symbol = 7 })).net_qty
    ≡ negsuc 2
unfolding process_trades process_trade update_position fill_position position_at find_position
    put_position same_key cover_short average_buy close_long average_sell integers ◌-ℤ◌ ◌+ℤ◌
turned_short = refl

process_trade-Settles_example :
    Settles integers started first_trade (process_trade integers started first_trade).0
process_trade-Settles_example = process_trade-Settles integers started first_trade

process_trades-Squared_example :
    Squared integers
      (first_trade ∷ second_trade ∷ [])
      (process_trades integers (new_trade_engine integers) (first_trade ∷ second_trade ∷ []))
process_trades-Squared_example = process_trades-Squared integers (first_trade ∷ second_trade ∷ [])

abbrev traded_once : TradeEngine ℤ
traded_once = (process_trade integers started first_trade).0
