-- ===== src/Engine/Service.antt =====
-- The matching engine of `matching_engine.cpp` over a history of requests, and its risk gate.
use hft_sdk.Base.{
  Bool-cases, List, Option, Option-cases, [], ap, false, inl, inr, lookup, none, refl, some,
  u64_mod, ◌%◌, ◌+◌, ◌∷◌, ◌≡◌,
}
use hft_sdk.Types.{
  CancelRequest, ExecutionReport, Order, RejectReason, ReplaceRequest, Symbol, SymbolId, Timestamp,
  is_no_reason,
}
use hft_sdk.L3Book.Valid.{init-IsValid}
use hft_sdk.Risk.{RiskEngine, check_order}
use hft_sdk.Risk.Orders.{IsAcceptable, is_no_reason_iff, check_order-IsAcceptable}
use hft_sdk.Engine.{
  SymbolState, MatchingEngine, EngineEvent, on_execution, new_matching_engine, fresh_symbol,
  add_symbol, check_risk, process_new_order, process_cancel, process_replace, reject_report,
}
use hft_sdk.Types.Symbols.{make_symbol}
use hft_sdk.Engine.Setup.{add_symbol_id, set_risk_engine}
use hft_sdk.Engine.Books.{
  AllValid, AllValidAfter, set_symbol-AllValid, process_new_order-AllValid, process_cancel-AllValid,
  process_replace-AllValid,
}

-- A call of the engine, with the times at which its handler reads the clock.
pub data Request : Type 0 where
  adds_symbol : Symbol → Request
  adds_symbol_id : SymbolId → Request
  binds_risk : Option RiskEngine → Request
  submits : Order → Timestamp → Timestamp → Request
  withdraws : CancelRequest → Timestamp → Timestamp → Request
  amends : ReplaceRequest → Timestamp → Timestamp → Request

abbrev pub engine_after :
    Option (MatchingEngine × ExecutionReport × List EngineEvent) → Option MatchingEngine
engine_after none = none
engine_after (some (e, rpt, events)) = some e

unfoldable pub handle : MatchingEngine → Request → Option MatchingEngine
handle e (adds_symbol symbol) = some (add_symbol e symbol)
handle e (adds_symbol_id symbol) = some (add_symbol_id e symbol)
handle e (binds_risk risk) = some (set_risk_engine e risk)
handle e (submits o ts later) = some (process_new_order e o ts later).0
handle e (withdraws c ts later) = engine_after (process_cancel e c ts later)
handle e (amends req ts later) = engine_after (process_replace e req ts later)

unfoldable pub serve : MatchingEngine → List Request → Option MatchingEngine
serve e [] = some e
serve e (c ∷ cs) = elim (handle e c) [ none ↦ none | some e' ↦ serve e' cs ]

abbrev pub IsServed : Option MatchingEngine → Type 0
IsServed none = ⊥
IsServed (some e) = AllValid e

add_symbol-AllValid :
    (e : MatchingEngine) (symbol : Symbol) → AllValid e → AllValid (add_symbol e symbol)
unfolding add_symbol
add_symbol-AllValid e symbol v = elim (Option-cases (lookup symbol e.symbols)) [
  | inl f ↦
      rw (f, add_symbol)
        (set_symbol-AllValid e symbol (fresh_symbol symbol) v (init-IsValid symbol))
  | inr (st, f) ↦ rw (f, add_symbol) v
]

engine_after-IsServed :
    (out : Option (MatchingEngine × ExecutionReport × List EngineEvent))
    → AllValidAfter out
    → IsServed (engine_after out)
engine_after-IsServed none h = h
engine_after-IsServed (some x) h = h

handle-IsServed : (e : MatchingEngine) (c : Request) → AllValid e → IsServed (handle e c)
unfolding handle add_symbol_id
handle-IsServed e (adds_symbol symbol) v = add_symbol-AllValid e symbol v
handle-IsServed e (adds_symbol_id symbol) v = add_symbol-AllValid e (make_symbol symbol) v
handle-IsServed e (binds_risk risk) v = record { valid = v.valid }
handle-IsServed e (submits o ts later) v = process_new_order-AllValid e o ts later v
handle-IsServed e (withdraws c ts later) v =
    engine_after-IsServed (process_cancel e c ts later) (process_cancel-AllValid e c ts later v)
handle-IsServed e (amends req ts later) v =
    engine_after-IsServed (process_replace e req ts later)
      (process_replace-AllValid e req ts later v)

serve-IsServed : (e : MatchingEngine) (cs : List Request) → AllValid e → IsServed (serve e cs)
unfolding serve
serve-IsServed e [] v = v
serve-IsServed e (c ∷ cs) v =
    go (handle e c) (handle-IsServed e c v) (λ e' h. serve-IsServed e' cs h)
  where
    go :
        (out : Option MatchingEngine)
        → IsServed out
        → ((e' : MatchingEngine) → AllValid e' → IsServed (serve e' cs))
        → IsServed (elim out [ none ↦ none | some e' ↦ serve e' cs ])
    go none h k = h
    go (some e') h k = k e' h

-- A new engine, with a risk engine in any state or with none, serves every sequence of new
-- symbols, also by name, of changes of its risk engine, and of orders, cancellations and
-- replacements: each handler returns, and in the end the book of every symbol is valid.
pub serve-new_matching_engine :
    (risk : Option RiskEngine) (cs : List Request) → IsServed (serve (new_matching_engine risk) cs)
unfolding lookup
serve-new_matching_engine risk cs =
    serve-IsServed (new_matching_engine risk) cs (record { valid = λ s. tt })

-- What the engine does with an order that the risk engine refuses for the reason `why`.
pub record Gated (e : MatchingEngine) (o : Order) (ts : Timestamp) (why : RejectReason)
    (out : MatchingEngine × ExecutionReport × List EngineEvent) : Type 0 where
  pub books : out.0.symbols ≡ e.symbols
  pub routes : out.0.order_symbol_index ≡ e.order_symbol_index
  pub trades : out.0.trades_generated ≡ e.trades_generated
  pub counted : out.0.rejects ≡ (e.rejects + 1) % u64_mod
  pub reported : out.1 ≡ reject_report o why ts
  pub published : out.2 ≡ on_execution (reject_report o why ts) ∷ []

check_risk-some :
    (e : MatchingEngine) (o : Order) (r : RiskEngine)
    → e.risk_engine ≡ some r
    → check_risk e.risk_engine o ≡ (some (check_order r o).0, (check_order r o).1)
unfolding check_risk
check_risk-some e o r f = ap (λ x. check_risk x o) f

refused_reason :
    (r : RiskEngine) (o : Order) → ¬ IsAcceptable r o → is_no_reason (check_order r o).1 ≡ false
refused_reason r o h = elim (Bool-cases (is_no_reason (check_order r o).1)) [
  | inr e ↦ e
  | inl e ↦ absurd (h ((check_order-IsAcceptable r o).0 ((is_no_reason_iff _).0 e)))
]

-- An order for a known symbol that is not acceptable to the risk engine changes no book, no route
-- and no trade count, is counted and reported as rejected with the reason of the check, and only
-- that report is published.
pub process_new_order-Gated :
    (e : MatchingEngine) (o : Order) (ts later : Timestamp) (r : RiskEngine) (st : SymbolState)
    → e.risk_engine ≡ some r
    → lookup o.symbol e.symbols ≡ some st
    → ¬ IsAcceptable r o
    → Gated e o ts (check_order r o).1 (process_new_order e o ts later)
unfolding process_new_order
process_new_order-Gated e o ts later r st f g h =
    let c = check_risk-some e o r f in
    let n = refused_reason r o h in
    rw (g, process_new_order)
      (rw c (
        rw n (record {
          books = refl;
          routes = refl;
          trades = refl;
          counted = refl;
          reported = refl;
          published = refl;
        })))
