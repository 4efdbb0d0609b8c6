-- ===== src/Risk/Tests.antt =====
-- Runs of `risk_engine.cpp` on small inputs, and the witnesses of its theorems.
use hft_sdk.Base.{
  abs_ℤ, arith, insert, lookup, neg_part, pos, pos_part, refl, true, ◌+ℤ◌, ◌-ℤ◌, ◌↔◌, ◌≡◌,
}
use hft_sdk.Types.{Order, Quantity, buy, default_order, no_reason, position_limit, sell}
use hft_sdk.Risk.{
  RiskEngine, new_engine, get_limits, get_state, put_state, position, moved, is_killed,
  get_position, check_kill_switch, check_price_validity, check_quantity_validity, position_verdict,
  check_position_limit, drop_expired, check_rate_limit, check_order, on_fill, kill_trader,
}
use hft_sdk.Risk.Orders.{IsAcceptable, check_order-IsAcceptable}
use hft_sdk.Risk.Effects.{CheckEffects, check_order-CheckEffects}
use hft_sdk.Risk.Fills.{
  IsWithin, IsBalanced, get_position-on_fill, check_order-on_fill, new_engine-IsBalanced,
  on_fill-IsBalanced,
}
use hft_sdk.Risk.Kills.{Switches, is_killed-Switches}

risk_runs : Unit {0}
unfolding get_limits get_state put_state position moved is_killed get_position check_kill_switch
    check_price_validity check_quantity_validity position_verdict check_position_limit drop_expired
    check_rate_limit check_order on_fill kill_trader lookup insert ◌+ℤ◌ ◌-ℤ◌ abs_ℤ pos_part neg_part
risk_runs = tt

abbrev buy_order : Quantity → Order
buy_order q = record default_order {
  id = 1;
  trader_id = 4;
  symbol = 7;
  price = pos 100;
  quantity = q;
  submit_time = 50;
}

abbrev long : RiskEngine
long = on_fill new_engine 4 7 buy (pos 9000)

passed : (check_order long (buy_order (pos 1000))).1 ≡ no_reason
unfolding risk_runs
passed = refl

too_long : (check_order long (buy_order (pos 1001))).1 ≡ position_limit
unfolding risk_runs
too_long = refl

long-IsWithin : IsWithin long 4 7
unfolding risk_runs
long-IsWithin = record { in_symbol = omega arith; net = omega arith }

check_order-IsAcceptable_example :
    ((check_order long (buy_order (pos 1000))).1 ≡ no_reason)
    ↔ IsAcceptable long (buy_order (pos 1000))
check_order-IsAcceptable_example = check_order-IsAcceptable long (buy_order (pos 1000))

check_order-CheckEffects_example : CheckEffects long (check_order long (buy_order (pos 1001)))
check_order-CheckEffects_example = check_order-CheckEffects long (buy_order (pos 1001))

check_order-on_fill_example :
    IsWithin (on_fill (check_order long (buy_order (pos 1000))).0 4 7 buy (pos 600)) 4 7
unfolding pos_part neg_part
check_order-on_fill_example =
    check_order-on_fill long (buy_order (pos 1000)) (pos 600) long-IsWithin passed (omega arith)
      (omega arith)

on_fill-IsBalanced_example : IsBalanced (on_fill new_engine 4 7 sell (pos 30))
on_fill-IsBalanced_example = on_fill-IsBalanced new_engine 4 7 sell (pos 30) new_engine-IsBalanced

get_position-on_fill_example : get_position (on_fill long 4 7 sell (pos 30)) 4 7 ≡ pos 8970
unfolding risk_runs
get_position-on_fill_example = get_position-on_fill long 4 7 sell (pos 30) 4 7

is_killed-Switches_example : Switches (kill_trader long 4)
is_killed-Switches_example = is_killed-Switches (kill_trader long 4)

kill_trader-killed : is_killed (kill_trader long 4) 4 ≡ true
unfolding risk_runs
kill_trader-killed = refl
