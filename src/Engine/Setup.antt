-- ===== src/Engine/Setup.antt =====
-- The calls that set up the engine of `matching_engine.hpp`: its risk engine, its callbacks and the
-- symbols by name.
use hft_sdk.Base.{Bool, List, Option, [], false, if◌then◌else◌, map, ◌∷◌}
use hft_sdk.Types.{Symbol, SymbolId}
use hft_sdk.Types.Symbols.{make_symbol}
use hft_sdk.Risk.{RiskEngine}
use hft_sdk.Engine.{
  MatchingEngine, EngineEvent, on_execution, on_engine_trade, on_l1_update, on_l2_update,
  add_symbol,
}

unfoldable pub add_symbol_id : MatchingEngine → SymbolId → MatchingEngine
add_symbol_id e symbol = add_symbol e (make_symbol symbol)

-- `symbols()`, in the order of the list of pairs.
abbrev pub engine_symbols : MatchingEngine → List Symbol
engine_symbols e = map (λ p. p.0) e.symbols

-- `none` is a null pointer.
abbrev pub set_risk_engine : MatchingEngine → Option RiskEngine → MatchingEngine
set_risk_engine e risk = record e { risk_engine = risk }

-- Which of the callbacks are set. They change nothing of the state of the engine.
pub record EngineCallbacks : Type 0 where
  pub exec_cb : Bool
  pub trade_cb : Bool
  pub l1_cb : Bool
  pub l2_cb : Bool

abbrev pub no_callbacks : EngineCallbacks
no_callbacks = record { exec_cb = false; trade_cb = false; l1_cb = false; l2_cb = false }

abbrev pub set_exec_cb : EngineCallbacks → Bool → EngineCallbacks
set_exec_cb c given = record c { exec_cb = given }

abbrev pub set_trade_cb : EngineCallbacks → Bool → EngineCallbacks
set_trade_cb c given = record c { trade_cb = given }

abbrev pub set_l1_cb : EngineCallbacks → Bool → EngineCallbacks
set_l1_cb c given = record c { l1_cb = given }

abbrev pub set_l2_cb : EngineCallbacks → Bool → EngineCallbacks
set_l2_cb c given = record c { l2_cb = given }

abbrev pub is_heard : EngineCallbacks → EngineEvent → Bool
is_heard c (on_execution rpt) = c.exec_cb
is_heard c (on_engine_trade t) = c.trade_cb
is_heard c (on_l1_update tob) = c.l1_cb
is_heard c (on_l2_update depth) = c.l2_cb

-- The events of a handler that are calls of a callback which is set: `if (cb) cb(x)`.
unfoldable pub heard : EngineCallbacks → List EngineEvent → List EngineEvent
heard c [] = []
heard c (x ∷ xs) = let rest = heard c xs in if is_heard c x then x ∷ rest else rest
