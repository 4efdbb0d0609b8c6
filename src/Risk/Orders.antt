-- ===== src/Risk/Orders.antt =====
-- `check_order` of `risk_engine.cpp`: the orders that pass, and what a check changes.
use hft_sdk.Base.{
  abs_ℤ, arith, false, length, pos, refl, true, u64_mod, ◌%◌, ◌+◌, ◌<ℤ◌, ◌<◌, ◌↔◌, ◌≡◌, ◌≤ℤ◌,
}
use hft_sdk.Types.{Order, RejectReason, Timestamp, TraderId, is_limit, is_no_reason, no_reason}
use hft_sdk.Risk.{
  TraderRiskLimits, TraderRiskState, RiskEngine, get_limits, get_state, put_state, touch, position,
  moved, is_killed, check_kill_switch, check_price_validity, check_quantity_validity,
  position_verdict, check_position_limit, window_ns, drop_expired, check_rate_limit, checked,
  check_order,
}
use hft_sdk.Risk.Maps.{get_state-touch}

-- The conditions under which an order may enter the market.
pub record IsAcceptable (r : RiskEngine) (o : Order) : Type 0 where
  pub alive : is_killed r o.trader_id ≡ false
  pub priced : is_limit o.type ≡ true → pos 0 <ℤ o.price
  pub sized : pos 0 <ℤ o.quantity
  pub position_room :
      abs_ℤ (moved o.side (position (get_state r o.trader_id) o.symbol) o.quantity)
      ≤ℤ (get_limits r o.trader_id).max_position_per_symbol
  pub net_room :
      abs_ℤ (moved o.side (get_state r o.trader_id).net_position o.quantity)
      ≤ℤ (get_limits r o.trader_id).max_net_position
  pub rate_room :
      length (
        drop_expired o.submit_time
          (window_ns (get_limits r o.trader_id))
          (get_state r o.trader_id).order_timestamps)
      < (get_limits r o.trader_id).max_order_rate

pub is_no_reason_iff : (x : RejectReason) → (is_no_reason x ≡ true) ↔ (x ≡ no_reason)
is_no_reason_iff x = ground arith

checked_iff :
    (out : RiskEngine × RejectReason) (next : RiskEngine → RiskEngine × RejectReason)
    → ((checked out next).1 ≡ no_reason) ↔ ((out.1 ≡ no_reason) × ((next out.0).1 ≡ no_reason))
checked_iff (r, verdict) next = ground (arith, is_no_reason_iff verdict)

check_kill_switch_iff :
    (r : RiskEngine) (t : TraderId) → (check_kill_switch r t ≡ no_reason) ↔ (is_killed r t ≡ false)
unfolding check_kill_switch is_killed
check_kill_switch_iff r t = ground arith

check_price_validity_iff :
    (o : Order) → (check_price_validity o ≡ no_reason) ↔ (is_limit o.type ≡ true → pos 0 <ℤ o.price)
unfolding check_price_validity
check_price_validity_iff o = ground arith

check_quantity_validity_iff :
    (o : Order) → (check_quantity_validity o ≡ no_reason) ↔ (pos 0 <ℤ o.quantity)
unfolding check_quantity_validity
check_quantity_validity_iff o = ground arith

position_verdict_iff :
    (l : TraderRiskLimits) (st : TraderRiskState) (o : Order)
    → (position_verdict l st o ≡ no_reason) ↔ (
        (abs_ℤ (moved o.side (position st o.symbol) o.quantity) ≤ℤ l.max_position_per_symbol)
        × (abs_ℤ (moved o.side st.net_position o.quantity) ≤ℤ l.max_net_position))
unfolding position_verdict
position_verdict_iff l st o = ground arith

check_rate_limit_iff :
    (r : RiskEngine) (t : TraderId) (now : Timestamp)
    → ((check_rate_limit r t now).1 ≡ no_reason) ↔ (
        length (drop_expired now (window_ns (get_limits r t)) (get_state r t).order_timestamps)
        < (get_limits r t).max_order_rate)
unfolding check_rate_limit
check_rate_limit_iff r t now = ground arith

get_limits-touch : (r : RiskEngine) (t u : TraderId) → get_limits (touch t r) u ≡ get_limits r u
unfolding get_limits put_state
get_limits-touch r t u = refl

-- Whether the rate has room, read after the state of the trader was touched.
abbrev HasRoom : RiskEngine → TraderId → Timestamp → Type 0
HasRoom r t now =
    length (drop_expired now (window_ns (get_limits r t)) (get_state r t).order_timestamps)
    < (get_limits r t).max_order_rate

check_rate_limit-touch :
    (r : RiskEngine) (t : TraderId) (now : Timestamp)
    → ((check_rate_limit (touch t r) t now).1 ≡ no_reason) ↔ HasRoom r t now
check_rate_limit-touch r t now =
    rw (get_limits-touch r t t, get_state-touch t t r) at (check_rate_limit_iff (touch t r) t now)

-- The five checks as conditions on what the engine holds.
check_order-checks :
    (r : RiskEngine) (o : Order)
    → let t = o.trader_id in
      ((check_order r o).1 ≡ no_reason) ↔ (
        (check_kill_switch r t ≡ no_reason)
        × (check_price_validity o ≡ no_reason)
        × (check_quantity_validity o ≡ no_reason)
        × (position_verdict (get_limits r t) (get_state r t) o ≡ no_reason)
        × HasRoom r t o.submit_time)
unfolding check_order check_position_limit check_kill_switch is_killed get_limits get_state
    put_state
check_order-checks r o =
    let t = o.trader_id in
    let r0 = record r { orders_checked = (r.orders_checked + 1) % u64_mod } in
    let n5 : RiskEngine → RiskEngine × RejectReason = (λ x. (x, no_reason)) in
    let n4 : RiskEngine → RiskEngine × RejectReason =
      (λ x. checked (check_rate_limit x t o.submit_time) n5) in
    let n3 : RiskEngine → RiskEngine × RejectReason =
      (λ x. checked (check_position_limit x t o) n4) in
    let n2 : RiskEngine → RiskEngine × RejectReason =
      (λ x. checked (x, check_quantity_validity o) n3) in
    let n1 : RiskEngine → RiskEngine × RejectReason =
      (λ x. checked (x, check_price_validity o) n2) in
    let c1 = checked_iff (r0, check_kill_switch r0 t) n1 in
    let c2 = checked_iff (r0, check_price_validity o) n2 in
    let c3 = checked_iff (r0, check_quantity_validity o) n3 in
    let c4 = checked_iff (check_position_limit r0 t o) n4 in
    let c5 = checked_iff (check_rate_limit (touch t r0) t o.submit_time) n5 in
    let m = check_rate_limit-touch r0 t o.submit_time in
    (
      λ e.
          let a = c1.0 e in
          let b = c2.0 a.1 in
          let c = c3.0 b.1 in let d = c4.0 c.1 in (a.0, b.0, c.0, d.0, m.0 (c5.0 d.1).0),
      λ (a, b, c, d, e). c1.1 (a, c2.1 (b, c3.1 (c, c4.1 (d, c5.1 (m.1 e, refl))))),
    )

-- An order passes the checks exactly when its trader is not killed, its price, for a limit order,
-- and its quantity are positive, the projected position in its symbol and the projected net
-- position are within the limits, and fewer orders than the rate limit are left in its trader's
-- window.
pub check_order-IsAcceptable :
    (r : RiskEngine) (o : Order) → ((check_order r o).1 ≡ no_reason) ↔ IsAcceptable r o
check_order-IsAcceptable r o =
    let t = o.trader_id in
    let c = check_order-checks r o in
    let k = check_kill_switch_iff r t in
    let p = check_price_validity_iff o in
    let q = check_quantity_validity_iff o in
    let v = position_verdict_iff (get_limits r t) (get_state r t) o in
    (
      λ e.
          let x = c.0 e in
          record {
            alive = k.0 x.0;
            priced = p.0 x.1;
            sized = q.0 x.2;
            position_room = (v.0 x.3).0;
            net_room = (v.0 x.3).1;
            rate_room = x.4;
          },
      λ a.
          c.1 (
            k.1 a.alive,
            p.1 a.priced,
            q.1 a.sized,
            v.1 (a.position_room, a.net_room),
            a.rate_room,
          ),
    )
