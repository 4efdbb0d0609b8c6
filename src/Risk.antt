-- ===== src/Risk.antt =====
-- The pre-trade checks of `src/risk/risk_engine.hpp` and `src/risk/risk_engine.cpp`: the state of the
-- engine, its checks and its updates. A hash map is a list of pairs, and the clock's times and the
-- counters are `uint64_t`, with their wrap-around written out.
pub mod Maps
pub mod Orders
pub mod Effects
pub mod Fills
pub mod Kills
pub mod Tests
use hft_sdk.Base.{
  Bool, List, Option, [], abs_ℤ, false, if◌then◌else◌, insert, leb, leb_ℤ, length, lookup, ltb,
  ltb_ℤ, none, pos, some, true, u64_mod, ℕ, ◌%◌, ◌&&◌, ◌*◌, ◌++◌, ◌+ℤ◌, ◌+◌, ◌-ℤ◌, ◌-◌, ◌∷◌,
}
use hft_sdk.Types.{
  Order, Quantity, RejectReason, Side, Symbol, Timestamp, TraderId, buy, invalid_price,
  invalid_quantity, is_limit, is_no_reason, kill_switch_active, no_reason, position_limit,
  rate_limit, sell,
}

-- `TraderRiskLimits`.
pub record TraderRiskLimits : Type 0 where
  pub max_position_per_symbol : Quantity
  pub max_net_position : Quantity
  pub max_order_rate : ℕ
  pub rate_window_ms : ℕ
  pub self_trade_prevention : Bool

-- The defaults of `src/common/constants.hpp`.
abbrev pub default_risk_limits : TraderRiskLimits
default_risk_limits = record {
  max_position_per_symbol = pos 10000;
  max_net_position = pos 100000;
  max_order_rate = 1000;
  rate_window_ms = 1000;
  self_trade_prevention = true;
}

-- `TraderRiskState`.
pub record TraderRiskState : Type 0 where
  pub positions : List (Symbol × Quantity)
  pub order_timestamps : List Timestamp
  pub net_position : Quantity
  pub killed : Bool

-- `TraderRiskState{}`.
abbrev pub fresh_state : TraderRiskState
fresh_state = record { positions = []; order_timestamps = []; net_position = pos 0; killed = false }

pub record RiskEngine : Type 0 where
  pub default_limits : TraderRiskLimits
  pub trader_limits : List (TraderId × TraderRiskLimits)
  pub trader_states : List (TraderId × TraderRiskState)
  pub global_kill : Bool
  pub orders_checked : ℕ
  pub orders_rejected : ℕ

abbrev pub new_engine : RiskEngine
new_engine = record {
  default_limits = default_risk_limits;
  trader_limits = [];
  trader_states = [];
  global_kill = false;
  orders_checked = 0;
  orders_rejected = 0;
}

abbrev pub set_trader_limits : TraderId → TraderRiskLimits → RiskEngine → RiskEngine
set_trader_limits t limits r = record r { trader_limits = insert t limits r.trader_limits }

abbrev pub set_default_limits : TraderRiskLimits → RiskEngine → RiskEngine
set_default_limits limits r = record r { default_limits = limits }

abbrev pub or_else {ℓ} : {A : Type ℓ} → A → Option A → A
or_else a none = a
or_else a (some x) = x

unfoldable pub get_limits : RiskEngine → TraderId → TraderRiskLimits
get_limits r t = or_else r.default_limits (lookup t r.trader_limits)

-- The state that `trader_states_[t]` refers to.
unfoldable pub get_state : RiskEngine → TraderId → TraderRiskState
get_state r t = or_else fresh_state (lookup t r.trader_states)

-- A write through that reference; `touch` is the reference alone, which inserts a missing entry.
unfoldable pub put_state : TraderId → TraderRiskState → RiskEngine → RiskEngine
put_state t st r = record r { trader_states = insert t st r.trader_states }

abbrev pub touch : TraderId → RiskEngine → RiskEngine
touch t r = put_state t (get_state r t) r

unfoldable pub position : TraderRiskState → Symbol → Quantity
position st s = or_else (pos 0) (lookup s st.positions)

-- `pos + qty` for a buy, `pos - qty` for a sell.
unfoldable pub moved : Side → Quantity → Quantity → Quantity
moved buy p qty = p +ℤ qty
moved sell p qty = p -ℤ qty

unfoldable pub is_killed : RiskEngine → TraderId → Bool
is_killed r t =
    if r.global_kill
    then true
    else elim (lookup t r.trader_states) [ none ↦ false | some st ↦ st.killed ]

unfoldable pub get_position : RiskEngine → TraderId → Symbol → Quantity
get_position r t s = elim (lookup t r.trader_states) [ none ↦ pos 0 | some st ↦ position st s ]

unfoldable pub check_kill_switch : RiskEngine → TraderId → RejectReason
check_kill_switch r t =
    if r.global_kill
    then kill_switch_active
    else if is_killed r t
    then kill_switch_active
    else no_reason

unfoldable pub check_price_validity : Order → RejectReason
check_price_validity o =
    if is_limit o.type && leb_ℤ o.price (pos 0) then invalid_price else no_reason

unfoldable pub check_quantity_validity : Order → RejectReason
check_quantity_validity o = if leb_ℤ o.quantity (pos 0) then invalid_quantity else no_reason

-- The two tests of `check_position_limit`.
unfoldable pub position_verdict : TraderRiskLimits → TraderRiskState → Order → RejectReason
position_verdict limits st o =
    if ltb_ℤ limits.max_position_per_symbol (abs_ℤ (moved o.side (position st o.symbol) o.quantity))
    then position_limit
    else if ltb_ℤ limits.max_net_position (abs_ℤ (moved o.side st.net_position o.quantity))
    then position_limit
    else no_reason

unfoldable pub check_position_limit : RiskEngine → TraderId → Order → RiskEngine × RejectReason
check_position_limit r t o = (touch t r, position_verdict (get_limits r t) (get_state r t) o)

-- `now - front`, on `uint64_t`.
abbrev pub age : Timestamp → Timestamp → ℕ
age now front = (now + u64_mod - front) % u64_mod

abbrev pub window_ns : TraderRiskLimits → ℕ
window_ns limits = limits.rate_window_ms * 1000000 % u64_mod

-- The loop that removes the expired timestamps.
unfoldable pub drop_expired : Timestamp → ℕ → List Timestamp → List Timestamp
drop_expired now window [] = []
drop_expired now window (t ∷ ts) =
    let rest = drop_expired now window ts in if ltb window (age now t) then rest else t ∷ ts

unfoldable pub check_rate_limit : RiskEngine → TraderId → Timestamp → RiskEngine × RejectReason
check_rate_limit r t now =
    let limits = get_limits r t in
    let st = get_state r t in
    let kept = drop_expired now (window_ns limits) st.order_timestamps in
    if leb limits.max_order_rate (length kept)
    then (put_state t (record st { order_timestamps = kept }) r, rate_limit)
    else (put_state t (record st { order_timestamps = kept ++ now ∷ [] }) r, no_reason)

-- `orders_rejected_++; return r;`
abbrev pub reject : RiskEngine → RejectReason → RiskEngine × RejectReason
reject r verdict = (record r { orders_rejected = (r.orders_rejected + 1) % u64_mod }, verdict)

-- `if (r != None) { orders_rejected_++; return r; }`, and else the checks that follow.
abbrev pub checked :
    RiskEngine × RejectReason → (RiskEngine → RiskEngine × RejectReason) → RiskEngine × RejectReason
checked (r, verdict) next = if is_no_reason verdict then next r else reject r verdict

unfoldable pub check_order : RiskEngine → Order → RiskEngine × RejectReason
check_order r o =
    let r0 = record r { orders_checked = (r.orders_checked + 1) % u64_mod } in
    checked (r0, check_kill_switch r0 o.trader_id)
      (λ r1.
        checked (r1, check_price_validity o)
          (λ r2.
            checked (r2, check_quantity_validity o)
              (λ r3. checked (check_position_limit r3 o.trader_id o) (λ r4.
                checked (check_rate_limit r4 o.trader_id o.submit_time) (λ r5. (r5, no_reason))))))

unfoldable pub on_fill : RiskEngine → TraderId → Symbol → Side → Quantity → RiskEngine
on_fill r t s side qty =
    let st = get_state r t in
    put_state t
      (record st {
        positions = insert s (moved side (position st s) qty) st.positions;
        net_position = moved side st.net_position qty;
      })
      r

unfoldable pub kill_trader : RiskEngine → TraderId → RiskEngine
kill_trader r t = put_state t (record (get_state r t) { killed = true }) r

abbrev pub kill_all : RiskEngine → RiskEngine
kill_all r = record r { global_kill = true }

unfoldable pub unkill_trader : RiskEngine → TraderId → RiskEngine
unkill_trader r t = put_state t (record (get_state r t) { killed = false }) r

unfoldable pub revive : List (TraderId × TraderRiskState) → List (TraderId × TraderRiskState)
revive [] = []
revive ((t, st) ∷ m) = (t, record st { killed = false }) ∷ revive m

unfoldable pub unkill_all : RiskEngine → RiskEngine
unkill_all r = record r { global_kill = false; trader_states = revive r.trader_states }
