-- ===== src/Risk/Maps.antt =====
-- What a write to the state of one trader leaves of the states that `risk_engine.cpp` reads.
use hft_sdk.Base.{arith, if◌then◌else◌, lookup, lookup-insert, ◌==◌, ◌||◌, ◌≡◌}
use hft_sdk.Types.{Symbol, TraderId}
use hft_sdk.Risk.{
  TraderRiskState, RiskEngine, get_state, put_state, touch, position, is_killed, get_position,
}

pub get_state-put_state :
    (t u : TraderId) (st : TraderRiskState) (r : RiskEngine)
    → get_state (put_state t st r) u ≡ (if t == u then st else get_state r u)
unfolding get_state put_state
get_state-put_state t u st r = ground (arith, lookup-insert t u st r.trader_states)

pub get_state-touch : (t u : TraderId) (r : RiskEngine) → get_state (touch t r) u ≡ get_state r u
get_state-touch t u r = ground (arith, get_state-put_state t u (get_state r t) r)

-- A missing entry reads like a fresh one.
pub is_killed-get_state :
    (r : RiskEngine) (t : TraderId) → is_killed r t ≡ r.global_kill || (get_state r t).killed
unfolding is_killed get_state
is_killed-get_state r t = ground arith

pub get_position-get_state :
    (r : RiskEngine) (t : TraderId) (s : Symbol) → get_position r t s ≡ position (get_state r t) s
unfolding get_position get_state position lookup
get_position-get_state r t s = ground arith
