-- ===== src/Risk/Kills.antt =====
-- The kill switches of `risk_engine.cpp`.
use hft_sdk.Base.{
  List, [], arith, false, if◌then◌else◌, lookup, none, refl, some, true, u64_mod, ◌%◌, ◌+◌, ◌==◌,
  ◌||◌, ◌∷◌, ◌≡◌,
}
use hft_sdk.Types.{Order, TraderId, kill_switch_active}
use hft_sdk.Risk.{
  TraderRiskState, RiskEngine, get_state, put_state, is_killed, check_kill_switch, check_order,
  kill_trader, kill_all, unkill_trader, unkill_all, revive,
}
use hft_sdk.Risk.Maps.{get_state-put_state, is_killed-get_state}

-- What the four switches do to every trader.
pub record Switches (r : RiskEngine) : Type 0 where
  pub kill_one : (t u : TraderId) → is_killed (kill_trader r t) u ≡ t == u || is_killed r u
  pub kill_every : (u : TraderId) → is_killed (kill_all r) u ≡ true
  pub unkill_one :
      (t u : TraderId)
      → is_killed (unkill_trader r t) u ≡ (if t == u then r.global_kill else is_killed r u)
  pub unkill_every : (u : TraderId) → is_killed (unkill_all r) u ≡ false

global_kill-kill_trader :
    (r : RiskEngine) (t : TraderId) → (kill_trader r t).global_kill ≡ r.global_kill
unfolding kill_trader put_state
global_kill-kill_trader r t = refl

global_kill-unkill_trader :
    (r : RiskEngine) (t : TraderId) → (unkill_trader r t).global_kill ≡ r.global_kill
unfolding unkill_trader put_state
global_kill-unkill_trader r t = refl

state-kill_trader :
    (r : RiskEngine) (t u : TraderId)
    → (get_state (kill_trader r t) u).killed ≡ (if t == u then true else (get_state r u).killed)
unfolding kill_trader
state-kill_trader r t u =
    ground (arith, get_state-put_state t u (record (get_state r t) { killed = true }) r)

state-unkill_trader :
    (r : RiskEngine) (t u : TraderId)
    → (get_state (unkill_trader r t) u).killed ≡ (if t == u then false else (get_state r u).killed)
unfolding unkill_trader
state-unkill_trader r t u =
    ground (arith, get_state-put_state t u (record (get_state r t) { killed = false }) r)

revived :
    (m : List (TraderId × TraderRiskState)) (u : TraderId)
    → (elim (lookup u (revive m)) [ none ↦ false | some st ↦ st.killed ]) ≡ false
unfolding lookup revive
revived [] u = refl
revived ((t, st) ∷ m) u = ground (arith, revived m u)

-- Killing a trader kills that trader and no other, the global switch kills all traders, reviving a
-- trader leaves only the global switch over it, and after the global revival no trader is killed.
pub is_killed-Switches : (r : RiskEngine) → Switches r
unfolding is_killed unkill_all
is_killed-Switches r = record {
  kill_one = λ t u. ground (
    arith,
    is_killed-get_state r u,
    is_killed-get_state (kill_trader r t) u,
    state-kill_trader r t u,
    global_kill-kill_trader r t,
  );
  kill_every = λ u. refl;
  unkill_one = λ t u. ground (
    arith,
    is_killed-get_state r u,
    is_killed-get_state (unkill_trader r t) u,
    state-unkill_trader r t u,
    global_kill-unkill_trader r t,
  );
  unkill_every = λ u. revived r.trader_states u;
}

check_kill_switch-killed :
    (r : RiskEngine) (t : TraderId)
    → is_killed r t ≡ true
    → check_kill_switch r t ≡ kill_switch_active
unfolding check_kill_switch
check_kill_switch-killed r t h = ground arith

-- The check of an order of a killed trader returns the kill switch as the reason, and changes the
-- two counters alone.
check_order-is_killed :
    (r : RiskEngine) (o : Order)
    → is_killed r o.trader_id ≡ true
    → check_order r o ≡ (
      record r {
        orders_checked = (r.orders_checked + 1) % u64_mod;
        orders_rejected = (r.orders_rejected + 1) % u64_mod;
      },
      kill_switch_active,
    )
unfolding check_order is_killed
check_order-is_killed r o h =
    let r0 = record r { orders_checked = (r.orders_checked + 1) % u64_mod } in
    rw (check_kill_switch-killed r0 o.trader_id h) refl
