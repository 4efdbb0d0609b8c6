-- ===== src/Feeds/Tests.antt =====
-- Runs of the feed of `l1_feed.cpp`.
use hft_sdk.Base.{List, [], integers, pos, refl, ◌*ℤ◌, ◌+ℤ◌, ◌/ℤ◌, ◌∷◌, ◌≡◌}
use hft_sdk.L3Book.{init}
use hft_sdk.Feeds.{
  feed_trade, new_feed, push_bounded, rolling_spread, sum_spreads, sum_trades, update_feed, vwap,
}
use hft_sdk.Feeds.Histories.{
  L1Call, updates_feed, records_trade, feed_call, feed_calls, Remembers, feed_calls-Remembers,
}

abbrev two_trades : List L1Call
two_trades =
    records_trade (pos 10) (pos 3) ∷ updates_feed (init 7) 5 ∷ records_trade (pos 20) (pos 1) ∷ []

-- 50 over 4, cut to a whole number.
average : vwap integers (feed_calls two_trades new_feed) ≡ pos 12
unfolding vwap sum_trades feed_calls feed_call feed_trade update_feed push_bounded integers ◌+ℤ◌
    ◌*ℤ◌ ◌/ℤ◌
average = refl

latest_two :
    rolling_spread integers (record new_feed { spread_history = pos 9 ∷ pos 3 ∷ pos 5 ∷ [] }) 2
    ≡ pos 4
unfolding rolling_spread sum_spreads integers ◌+ℤ◌ ◌/ℤ◌
latest_two = refl

feed_calls-Remembers_example : Remembers two_trades (feed_calls two_trades new_feed)
feed_calls-Remembers_example = feed_calls-Remembers two_trades
