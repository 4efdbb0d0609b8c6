-- ===== src/Feeds.antt =====
-- The market data of one book: `src/orderbook/l1_feed.hpp`, `l1_feed.cpp`, `l2_aggregator.hpp` and
-- `l2_aggregator.cpp`.
pub mod Histories
pub mod Tests
use hft_sdk.Base.{
  DoubleOps, List, [], if◌then◌else◌, length, ltb, ltb_ℤ, min, pos, reverse, suc, u32_mod, zero, ℕ,
  ◌%◌, ◌&&◌, ◌++◌, ◌==◌, ◌∷◌,
}
use hft_sdk.Types.{
  BookLevel, DepthSnapshot, Price, Quantity, Timestamp, TopOfBook, default_depth, default_tob,
}
use hft_sdk.L3Book.{Book}
use hft_sdk.L3Book.Query.{top_of_book, bid_depth, ask_depth}

-- `TradeRecord`.
pub record TradeRecord : Type 0 where
  pub price : Price
  pub quantity : Quantity

-- The state of `L1Feed`, its book apart.
pub record L1Feed : Type 0 where
  pub last_tob : TopOfBook
  pub recent_trades : List TradeRecord
  pub spread_history : List Price

abbrev pub new_feed : L1Feed
new_feed = record { last_tob = default_tob; recent_trades = []; spread_history = [] }

abbrev pub max_trade_history : ℕ
max_trade_history = 1000

abbrev pub max_spread_history : ℕ
max_spread_history = 500

-- `pop_front`.
abbrev pub drop_front {ℓ} : {A : Type ℓ} → List A → List A
drop_front [] = []
drop_front (x ∷ xs) = xs

-- `push_back`, and a `pop_front` if there are then more than `most`.
unfoldable pub push_bounded {ℓ} : {A : Type ℓ} → ℕ → List A → A → List A
push_bounded most xs x =
    if ltb most (length (xs ++ x ∷ [])) then drop_front (xs ++ x ∷ []) else xs ++ x ∷ []

-- `L1Feed::update`; the value that it returns is `last_tob` of the result.
unfoldable pub update_feed : L1Feed → Book → Timestamp → L1Feed
update_feed f b ts =
    let tob = top_of_book b ts in
    record f {
      last_tob = tob;
      spread_history =
          if tob.valid && ltb_ℤ (pos 0) tob.spread
          then push_bounded max_spread_history f.spread_history tob.spread
          else f.spread_history;
    }

-- `L1Feed::record_trade`.
unfoldable pub feed_trade : L1Feed → Price → Quantity → L1Feed
feed_trade f p q = record f {
  recent_trades =
      push_bounded max_trade_history f.recent_trades (record { price = p; quantity = q });
}

module _ {D : Type 0} (ops : DoubleOps D) where
  open ops use {of_int, add, mul, div, less}

  -- The loop of `vwap` with its two sums.
  unfoldable pub sum_trades : List TradeRecord → D × D → D × D
  sum_trades [] sums = sums
  sum_trades (t ∷ ts) (sum_pv, sum_v) =
      sum_trades ts
        (add sum_pv (mul (of_int t.price) (of_int t.quantity)), add sum_v (of_int t.quantity))

  unfoldable pub vwap : L1Feed → D
  vwap f =
      let zero = of_int (pos 0) in
      let (sum_pv, sum_v) = sum_trades f.recent_trades (zero, zero) in
      if length f.recent_trades == 0
      then zero
      else if less zero sum_v
      then div sum_pv sum_v
      else zero

  -- The loop of `rolling_spread`, which goes back from the end, here over the reversed list.
  unfoldable pub sum_spreads : ℕ → List Price → D → D
  sum_spreads zero ps sum = sum
  sum_spreads (suc n) [] sum = sum
  sum_spreads (suc n) (p ∷ ps) sum = sum_spreads n ps (add sum (of_int p))

  unfoldable pub rolling_spread : L1Feed → ℕ → D
  rolling_spread f window =
      let n = min window (length f.spread_history) in
      let sum = sum_spreads n (reverse f.spread_history) (of_int (pos 0)) in
      if length f.spread_history == 0 then of_int (pos 0) else div sum (of_int (pos n))

-- `MAX_L2_DEPTH` and `DEFAULT_L2_DEPTH` of `src/common/constants.hpp`.
abbrev pub max_l2_depth : ℕ
max_l2_depth = 20

abbrev pub default_l2_depth : ℕ
default_l2_depth = 10

-- `std::min(depth, MAX_L2_DEPTH)`, in the constructor of `L2Aggregator` and in `set_depth`.
abbrev pub l2_depth : ℕ → ℕ
l2_depth depth = if ltb max_l2_depth depth then max_l2_depth else depth

-- The loop that writes the levels over those of the array.
unfoldable pub overlay : List BookLevel → List BookLevel → List BookLevel
overlay [] ls = []
overlay (d ∷ ds) [] = d ∷ ds
overlay (d ∷ ds) (l ∷ ls) = l ∷ overlay ds ls

-- `L2Aggregator::snapshot`, of an aggregator of the given depth.
unfoldable pub snapshot : ℕ → Book → Timestamp → DepthSnapshot
snapshot depth b ts =
    let bids = bid_depth b depth in
    let asks = ask_depth b depth in
    record default_depth {
      symbol = b.symbol;
      timestamp = ts;
      bid_levels = length bids % u32_mod;
      ask_levels = length asks % u32_mod;
      bids = overlay default_depth.bids bids;
      asks = overlay default_depth.asks asks;
    }

-- The queries of the levels.
abbrev pub l2_bid_levels : ℕ → Book → List BookLevel
l2_bid_levels depth b = bid_depth b depth

abbrev pub l2_ask_levels : ℕ → Book → List BookLevel
l2_ask_levels depth b = ask_depth b depth
