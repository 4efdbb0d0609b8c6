-- ===== src/Engine/Books.antt =====
-- The books that the matching engine of `matching_engine.cpp` keeps.
use mathlib.Core.Option
use hft_sdk.Base.{
  Bool-cases, List, Option, Option-cases, [], arith, inl, inr, lookup, lookup-insert, none, refl,
  some, subst, u64_mod, ◌%◌, ◌+◌, ◌==◌, ◌∙◌, ◌∷◌, ◌≡◌,
}
use hft_sdk.Types.{
  CancelRequest, ExecutionReport, Order, OrderId, ReplaceRequest, Symbol, Timestamp, Trade,
  is_canceled, is_no_reason,
}
use hft_sdk.L3Book.{Book, BookEvent, on_trade, on_top_of_book}
use hft_sdk.L3Book.Ops.{cancel_order, replace_order}
use hft_sdk.L3Book.Valid.{IsValid}
use hft_sdk.L3Book.Valid.Adding.{
  IsValidAfter, add_order-IsValid, cancel_order-IsValid, replace_order-IsValid,
}
use hft_sdk.Engine.{
  SymbolState, MatchingEngine, EngineEvent, set_symbol, count_trade, handle_events, absorb,
  publish_market_data, check_risk, track_order, fill_risk, submit, process_new_order, route,
  finish_cancel, process_cancel, finish_replace, process_replace,
}

abbrev pub IsValidSome : Option SymbolState → Type 0
IsValidSome none = Unit
IsValidSome (some st) = IsValid st.book

-- The book of every symbol is valid.
pub record AllValid (e : MatchingEngine) : Type 0 where
  pub valid : (symbol : Symbol) → IsValidSome (lookup symbol e.symbols)

pub set_symbol-AllValid :
    (e : MatchingEngine) (symbol : Symbol) (st : SymbolState)
    → AllValid e
    → IsValid st.book
    → AllValid (set_symbol symbol st e)
set_symbol-AllValid e symbol st v h = record {
  valid = λ s.
      rw (lookup-insert symbol s st e.symbols)
        (elim (Bool-cases (symbol == s)) [ inl f ↦ rw f h | inr f ↦ rw f (v.valid s) ]);
}

-- What is known of a state that was found.
found-IsValid :
    (e : MatchingEngine) (symbol : Symbol) (st : SymbolState)
    → AllValid e
    → lookup symbol e.symbols ≡ some st
    → IsValid st.book
found-IsValid e symbol st v f = subst IsValidSome f (v.valid symbol)

-- A new table of the same states.
resymbols-AllValid : (e e' : MatchingEngine) → e'.symbols ≡ e.symbols → AllValid e → AllValid e'
resymbols-AllValid e e' f v = record { valid = λ s. rw f (v.valid s) }

count_trade-AllValid : (e : MatchingEngine) (t : Trade) → AllValid e → AllValid (count_trade e t)
unfolding count_trade
count_trade-AllValid e t v = elim (Option-cases (lookup t.symbol e.symbols)) [
  | inl f ↦ rw (f, count_trade) (resymbols-AllValid e _ refl v)
  | inr (st, f) ↦
      rw (f, count_trade)
        (set_symbol-AllValid (record e { trades_generated = (e.trades_generated + 1) % u64_mod })
          t.symbol _ (resymbols-AllValid e _ refl v) (found-IsValid e t.symbol st v f))
]

handle_events-AllValid :
    (e : MatchingEngine) (events : List BookEvent) → AllValid e → AllValid (handle_events e events)
unfolding handle_events
handle_events-AllValid e [] v = v
handle_events-AllValid e (on_trade t ∷ events) v =
    handle_events-AllValid (count_trade e t) events (count_trade-AllValid e t v)
handle_events-AllValid e (on_top_of_book tob ∷ events) v = handle_events-AllValid e events v

absorb-AllValid :
    (e : MatchingEngine) (symbol : Symbol) (st : SymbolState) (b : Book) (events : List BookEvent)
    → AllValid e
    → IsValid b
    → AllValid (absorb e symbol st b events)
unfolding absorb
absorb-AllValid e symbol st b events v h =
    handle_events-AllValid (set_symbol symbol (record st { book = b }) e) events
      (set_symbol-AllValid e symbol (record st { book = b }) v h)

publish_market_data-AllValid :
    (e : MatchingEngine) (symbol : Symbol) (later : Timestamp)
    → AllValid e
    → AllValid (publish_market_data e symbol later).0
unfolding publish_market_data
publish_market_data-AllValid e symbol later v = elim (Option-cases (lookup symbol e.symbols)) [
  | inl f ↦ rw (f, publish_market_data) v
  | inr (st, f) ↦
      rw (f, publish_market_data) (set_symbol-AllValid e symbol _ v (found-IsValid e symbol st v f))
]

symbols-track_order :
    (e : MatchingEngine) (o : Order) (rpt : ExecutionReport)
    → (track_order e o rpt).symbols ≡ e.symbols
unfolding track_order
symbols-track_order e o rpt = ground arith

symbols-fill_risk :
    (e : MatchingEngine) (o : Order) (rpt : ExecutionReport)
    → (fill_risk e o rpt).symbols ≡ e.symbols
unfolding fill_risk
symbols-fill_risk e o rpt = ground arith

submit-AllValid :
    (e : MatchingEngine) (st : SymbolState) (o : Order) (ts later : Timestamp)
    → AllValid e
    → IsValid st.book
    → AllValid (submit e st o ts later).0
unfolding submit
submit-AllValid e st o ts later v h = publish_market_data-AllValid _ o.symbol later (
    resymbols-AllValid _ _ (symbols-fill_risk _ o _ ∙ symbols-track_order _ o _)
      (absorb-AllValid e o.symbol st _ _ v (add_order-IsValid st.book o ts h)))

pub process_new_order-AllValid :
    (e : MatchingEngine) (o : Order) (ts later : Timestamp)
    → AllValid e
    → AllValid (process_new_order e o ts later).0
unfolding process_new_order
process_new_order-AllValid e o ts later v = elim (Option-cases (lookup o.symbol e.symbols)) [
  | inl f ↦ rw (f, process_new_order) (resymbols-AllValid e _ refl v)
  | inr (st, f) ↦
      rw (f, process_new_order)
        (elim (Bool-cases (is_no_reason (check_risk e.risk_engine o).1)) [
          | inl g ↦
              rw (g, process_new_order)
                (submit-AllValid _ st o ts later (resymbols-AllValid e _ refl v)
                  (found-IsValid e o.symbol st v f))
          | inr g ↦ rw (g, process_new_order) (resymbols-AllValid e _ refl v)
        ])
]

-- The engine that a handler leaves, where the handler returns.
abbrev pub AllValidAfter : Option (MatchingEngine × ExecutionReport × List EngineEvent) → Type 0
AllValidAfter none = ⊥
AllValidAfter (some (e, rpt, events)) = AllValid e

map-AllValidAfter :
    (out : Option (Book × ExecutionReport × List BookEvent))
    (finish : Book × ExecutionReport × List BookEvent
      → MatchingEngine × ExecutionReport × List EngineEvent)
    → IsValidAfter out
    → ((x : Book × ExecutionReport × List BookEvent) → IsValid x.0 → AllValid (finish x).0)
    → AllValidAfter (Option.map finish out)
map-AllValidAfter none finish h f = h
map-AllValidAfter (some x) finish h f = f x h

finish_cancel-AllValid :
    (e : MatchingEngine) (st : SymbolState) (symbol : Symbol) (i : OrderId) (later : Timestamp)
    (out : Book × ExecutionReport × List BookEvent)
    → AllValid e
    → IsValid out.0
    → AllValid (finish_cancel e st symbol i later out).0
unfolding finish_cancel
finish_cancel-AllValid e st symbol i later (b, rpt, events) v h =
    publish_market_data-AllValid _ symbol later (elim (Bool-cases (is_canceled rpt.status)) [
      | inl f ↦ rw f (resymbols-AllValid _ _ refl (absorb-AllValid e symbol st b events v h))
      | inr f ↦ rw f (absorb-AllValid e symbol st b events v h)
    ])

-- A cancellation returns, and leaves all books valid.
pub process_cancel-AllValid :
    (e : MatchingEngine) (c : CancelRequest) (ts later : Timestamp)
    → AllValid e
    → AllValidAfter (process_cancel e c ts later)
unfolding process_cancel
process_cancel-AllValid e c ts later v = elim (Option-cases (route e c)) [
  | inl f ↦ rw (f, process_cancel, AllValidAfter) v
  | inr (symbol, f) ↦
      rw (f, process_cancel, AllValidAfter)
        (elim (Option-cases (lookup symbol e.symbols)) [
          | inl g ↦ rw (g, process_cancel, AllValidAfter) v
          | inr (st, g) ↦
              rw (g, process_cancel, AllValidAfter)
                (map-AllValidAfter (cancel_order st.book c.order_id ts) _
                  (cancel_order-IsValid st.book c.order_id ts (found-IsValid e symbol st v g))
                  (λ x h. finish_cancel-AllValid e st symbol c.order_id later x v h))
        ])
]

finish_replace-AllValid :
    (e : MatchingEngine) (st : SymbolState) (symbol : Symbol) (later : Timestamp)
    (out : Book × ExecutionReport × List BookEvent)
    → AllValid e
    → IsValid out.0
    → AllValid (finish_replace e st symbol later out).0
unfolding finish_replace
finish_replace-AllValid e st symbol later (b, rpt, events) v h =
    publish_market_data-AllValid _ symbol later (absorb-AllValid e symbol st b events v h)

-- A replacement returns, and leaves all books valid.
pub process_replace-AllValid :
    (e : MatchingEngine) (req : ReplaceRequest) (ts later : Timestamp)
    → AllValid e
    → AllValidAfter (process_replace e req ts later)
unfolding process_replace
process_replace-AllValid e req ts later v = elim (Option-cases (lookup req.symbol e.symbols)) [
  | inl g ↦ rw (g, process_replace, AllValidAfter) v
  | inr (st, g) ↦
      rw (g, process_replace, AllValidAfter)
        (map-AllValidAfter (replace_order st.book req ts) _
          (replace_order-IsValid st.book req ts (found-IsValid e req.symbol st v g))
          (λ x h. finish_replace-AllValid e st req.symbol later x v h))
]
