-- ===== src/TradeEngine.antt =====
-- The trade engine of `src/market/trade_engine.hpp` and `src/market/trade_engine.cpp`. The type `D`
-- and its operations stand for `double`.
pub mod Positions
pub mod Balance
pub mod Tests
use hft_sdk.Base.{
  Bool, DoubleOps, List, Option, [], if◌then◌else◌, leb_ℤ, ltb_ℤ, min_ℤ, none, pos, some, u64_mod,
  ℕ, ◌%◌, ◌&&◌, ◌+ℤ◌, ◌+◌, ◌-ℤ◌, ◌==◌, ◌∷◌,
}
use hft_sdk.Types.{Price, Quantity, Side, Symbol, Trade, TraderId, buy, empty_symbol, sell}

pub record Position (D : Type 0) : Type 0 where
  pub symbol : Symbol
  pub net_qty : Quantity
  pub buy_qty : Quantity
  pub sell_qty : Quantity
  pub avg_buy_price : D
  pub avg_sell_price : D
  pub realized_pnl : D
  pub unrealized_pnl : D

pub record TraderSymbolKey : Type 0 where
  pub trader_id : TraderId
  pub symbol : Symbol

-- `operator==` of the keys.
unfoldable pub same_key : TraderSymbolKey → TraderSymbolKey → Bool
same_key k o = k.trader_id == o.trader_id && k.symbol == o.symbol

-- The map from keys to positions, with its `find` and its assignment.
abbrev pub Positions : Type 0 → Type 0
Positions D = List (TraderSymbolKey × Position D)

unfoldable pub find_position : {D : Type 0} → TraderSymbolKey → Positions D → Option (Position D)
find_position k [] = none
find_position k ((here, p) ∷ rest) = if same_key here k then some p else find_position k rest

unfoldable pub put_position :
    {D : Type 0} → TraderSymbolKey → Position D → Positions D → Positions D
put_position k value [] = (k, value) ∷ []
put_position k value ((here, p) ∷ rest) =
    if same_key here k then (here, value) ∷ rest else (here, p) ∷ put_position k value rest

pub record TradeEngine (D : Type 0) : Type 0 where
  pub positions : Positions D
  pub total_trades : ℕ
  pub total_volume : Quantity
  pub total_notional : D

-- A call of `position_cb_` or of `trade_cb_`.
pub data TradeEvent (D : Type 0) : Type 0 where
  on_position : TraderId → Position D → TradeEvent D
  on_processed : Trade → TradeEvent D

abbrev pub passive_side : Side → Side
passive_side buy = sell
passive_side sell = buy

-- The positions of one trader.
unfoldable pub positions_of : {D : Type 0} → TraderId → Positions D → List (Position D)
positions_of trader [] = []
positions_of trader ((k, p) ∷ rest) =
    if k.trader_id == trader then p ∷ positions_of trader rest else positions_of trader rest

module _ {D : Type 0} (ops : DoubleOps D) where
  open ops use {of_int, add, sub, mul, div}

  -- `Position{}`.
  abbrev pub default_position : Position D
  default_position = record {
    symbol = empty_symbol;
    net_qty = pos 0;
    buy_qty = pos 0;
    sell_qty = pos 0;
    avg_buy_price = of_int (pos 0);
    avg_sell_price = of_int (pos 0);
    realized_pnl = of_int (pos 0);
    unrealized_pnl = of_int (pos 0);
  }

  abbrev pub new_trade_engine : TradeEngine D
  new_trade_engine = record {
    positions = [];
    total_trades = 0;
    total_volume = pos 0;
    total_notional = of_int (pos 0);
  }

  -- `positions_[key]`, with a new position where there was none.
  unfoldable pub position_at : Positions D → TraderSymbolKey → Position D
  position_at m k = elim (find_position k m) [ none ↦ default_position | some p ↦ p ]

  -- A buy that reduces a short position realizes its profit.
  unfoldable pub cover_short : Quantity → Price → Position D → Position D
  cover_short qty price p =
      if ltb_ℤ p.net_qty (pos 0)
      then (let close_qty = min_ℤ qty (pos 0 -ℤ p.net_qty) in
          record p {
            realized_pnl =
                add p.realized_pnl (mul (of_int close_qty) (sub p.avg_sell_price (of_int price)));
          })
      else p

  -- A buy of a trader who is not short changes the average price of the purchases.
  unfoldable pub average_buy : Quantity → Price → Position D → Position D
  average_buy qty price p =
      if leb_ℤ (pos 0) p.net_qty
      then (let old_cost = mul p.avg_buy_price (of_int p.buy_qty) in
          let bought = p.buy_qty +ℤ qty in
          record p {
            buy_qty = bought;
            avg_buy_price = div (add old_cost (mul (of_int price) (of_int qty))) (of_int bought);
          })
      else p

  -- A sale that reduces a long position realizes its profit.
  unfoldable pub close_long : Quantity → Price → Position D → Position D
  close_long qty price p =
      if ltb_ℤ (pos 0) p.net_qty
      then (let close_qty = min_ℤ qty p.net_qty in
          record p {
            realized_pnl =
                add p.realized_pnl (mul (of_int close_qty) (sub (of_int price) p.avg_buy_price));
          })
      else p

  -- A sale of a trader who is not long changes the average price of the sales.
  unfoldable pub average_sell : Quantity → Price → Position D → Position D
  average_sell qty price p =
      if leb_ℤ p.net_qty (pos 0)
      then (let old_cost = mul p.avg_sell_price (of_int p.sell_qty) in
          let sold = p.sell_qty +ℤ qty in
          record p {
            sell_qty = sold;
            avg_sell_price = div (add old_cost (mul (of_int price) (of_int qty))) (of_int sold);
          })
      else p

  unfoldable pub fill_position : Side → Quantity → Price → Position D → Position D
  fill_position buy qty price p =
      let p' = average_buy qty price (cover_short qty price p) in
      record p' { net_qty = p'.net_qty +ℤ qty }
  fill_position sell qty price p =
      let p' = average_sell qty price (close_long qty price p) in
      record p' { net_qty = p'.net_qty -ℤ qty }

  unfoldable pub update_position :
      Positions D → TraderId → Symbol → Side → Quantity → Price → Positions D × Position D
  update_position m trader symbol side qty price =
      let k : TraderSymbolKey = record { trader_id = trader; symbol = symbol } in
      let p = fill_position side qty price (record (position_at m k) { symbol = symbol }) in
      (put_position k p m, p)

  unfoldable pub process_trade : TradeEngine D → Trade → TradeEngine D × List (TradeEvent D)
  process_trade e t =
      let (m1, p1) =
        update_position e.positions t.incoming_trader t.symbol t.aggressor_side t.qty t.price in
      let (m2, p2) =
        update_position m1 t.resting_trader t.symbol (passive_side t.aggressor_side) t.qty
          t.price in
      (
        record {
          positions = m2;
          total_trades = (e.total_trades + 1) % u64_mod;
          total_volume = e.total_volume +ℤ t.qty;
          total_notional = add e.total_notional (mul (of_int t.qty) (of_int t.price));
        },
        on_position t.incoming_trader p1 ∷ on_position t.resting_trader p2 ∷ on_processed t ∷ [],
      )

  unfoldable pub get_trader_position : TradeEngine D → TraderId → Symbol → Option (Position D)
  get_trader_position e trader symbol =
      find_position (record { trader_id = trader; symbol = symbol }) e.positions

  unfoldable pub mark : Price → Position D → Position D
  mark current p =
      if ltb_ℤ (pos 0) p.net_qty
      then record p {
        unrealized_pnl = mul (of_int p.net_qty) (sub (of_int current) p.avg_buy_price);
      }
      else if ltb_ℤ p.net_qty (pos 0)
      then record p {
        unrealized_pnl = mul (of_int (pos 0 -ℤ p.net_qty)) (sub p.avg_sell_price (of_int current));
      }
      else record p { unrealized_pnl = of_int (pos 0) }

  unfoldable pub mark_all : Symbol → Price → Positions D → Positions D
  mark_all symbol current [] = []
  mark_all symbol current ((k, p) ∷ rest) =
      (if k.symbol == symbol then (k, mark current p) else (k, p)) ∷ mark_all symbol current rest

  unfoldable pub mark_to_market : TradeEngine D → Symbol → Price → TradeEngine D
  mark_to_market e symbol current = record e { positions = mark_all symbol current e.positions }
