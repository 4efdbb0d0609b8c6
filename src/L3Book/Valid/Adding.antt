-- ===== src/L3Book/Valid/Adding.antt =====
-- New orders and replacements keep the invariant, so every history of a book does.
use hft_sdk.Base.{
  Bool-cases, List, Option, [], arith, false, inl, inr, lookup, ltb_ℤ, none, pos, refl, some, ◌&&◌,
  ◌-ℤ◌, ◌<ℤ◌, ◌∷◌, ◌≡◌,
}
use hft_sdk.Types.{
  ExecutionReport, Order, OrderId, ReplaceRequest, Symbol, TimeInForce, Timestamp, day, fok, gtc,
  ioc, is_canceled, is_limit,
}
use hft_sdk.L3Book.{Ledger, Book, BookEvent, MatchResult, init}
use hft_sdk.L3Book.Match.{is_fok, match_incoming, opposite}
use hft_sdk.L3Book.Ops.{
  is_indexed, add_order, place_rest, rest_or_cancel, match_report, cancel_order, resubmit,
  replace_order,
}
use hft_sdk.L3Book.Valid.{IsValid, init-IsValid}
use hft_sdk.L3Book.Valid.Matching.{
  Clear, match_incoming-IsValid, match_incoming-absent, match_incoming-Clear,
}
use hft_sdk.L3Book.Valid.Resting.{add_resting_order-IsValid}
use hft_sdk.L3Book.Valid.Cancelling.{CancelOutcome, cancel_order-CancelOutcome}

is_indexed-false :
    (i : OrderId) (g : Ledger) → is_indexed i g ≡ false → lookup i g.order_index ≡ none
is_indexed-false i g h = ground arith

-- The rest of an order, by its time in force.
rest_or_cancel-IsValid :
    (tif : TimeInForce) (b : Book) (o : Order) (r : MatchResult) (ts : Timestamp)
    (rpt : ExecutionReport)
    → IsValid b
    → pos 0 <ℤ r.remaining_qty
    → lookup o.id b.order_index ≡ none
    → (is_fok tif ≡ false → Clear o.side o.price (opposite b o.side))
    → IsValid (rest_or_cancel tif b o r ts rpt).0
unfolding rest_or_cancel
rest_or_cancel-IsValid day b o r ts rpt v h e c =
    add_resting_order-IsValid b o r.remaining_qty ts v h e (c refl)
rest_or_cancel-IsValid gtc b o r ts rpt v h e c =
    add_resting_order-IsValid b o r.remaining_qty ts v h e (c refl)
rest_or_cancel-IsValid ioc b o r ts rpt v h e c =
    elim (Bool-cases (ltb_ℤ (pos 0) (o.quantity -ℤ r.remaining_qty))) [
      | inl f ↦ rw f v
      | inr f ↦ rw f v
    ]
rest_or_cancel-IsValid fok b o r ts rpt v h e c = v

-- A new order leaves a valid book valid.
pub add_order-IsValid :
    (b : Book) (o : Order) (ts : Timestamp) → IsValid b → IsValid (add_order b o ts).0
unfolding add_order place_rest
add_order-IsValid b o ts v = elim (Bool-cases (is_indexed o.id b.ledger)) [
  | inl e ↦ rw e v
  | inr e ↦
      let b1 = (match_incoming b o ts).0 in
      let r = (match_incoming b o ts).1 in
      let v1 = match_incoming-IsValid b o ts v in
      rw e (elim (Bool-cases (ltb_ℤ (pos 0) r.remaining_qty && is_limit o.type)) [
        | inr f ↦ rw f v1
        | inl f ↦ rw f (
            rest_or_cancel-IsValid o.tif b1 o r ts (match_report o r ts) v1 (ground arith)
              (match_incoming-absent b o ts o.id (is_indexed-false o.id b.ledger e))
              (λ g. match_incoming-Clear b o ts v (ground arith) g (ground arith)))
      ])
]

-- The book that an operation leaves, if it returns.
abbrev pub IsValidAfter : Option (Book × ExecutionReport × List BookEvent) → Type 0
IsValidAfter none = ⊥
IsValidAfter (some (b, rpt, events)) = IsValid b

resubmit-IsValid :
    (req : ReplaceRequest) (ts : Timestamp) (out : Book × ExecutionReport × List BookEvent)
    → IsValid out.0
    → IsValid (resubmit req ts out).0
unfolding resubmit
resubmit-IsValid req ts (b, rpt, events) v = elim (Bool-cases (is_canceled rpt.status)) [
  | inl e ↦ rw e (add_order-IsValid b _ ts v)
  | inr e ↦ rw e v
]

outcome-IsValid :
    (b : Book) (i : OrderId) (ts : Timestamp)
    (out : Option (Book × ExecutionReport × List BookEvent))
    → IsValid b
    → CancelOutcome b i ts out
    → IsValidAfter out
outcome-IsValid b i ts none v h = h
outcome-IsValid b i ts (some (b', rpt, events)) v (inl r) = rw r.unchanged v
outcome-IsValid b i ts (some (b', rpt, events)) v (inr c) = c.valid

pub cancel_order-IsValid :
    (b : Book) (i : OrderId) (ts : Timestamp) → IsValid b → IsValidAfter (cancel_order b i ts)
cancel_order-IsValid b i ts v = outcome-IsValid b i ts _ v (cancel_order-CancelOutcome b i ts v)

-- In a valid book a replacement returns, and leaves a valid book.
pub replace_order-IsValid :
    (b : Book) (req : ReplaceRequest) (ts : Timestamp)
    → IsValid b
    → IsValidAfter (replace_order b req ts)
unfolding replace_order
replace_order-IsValid b req ts v =
    go (cancel_order b req.order_id ts) (cancel_order-IsValid b req.order_id ts v)
  where
    go :
        (out : Option (Book × ExecutionReport × List BookEvent))
        → IsValidAfter out
        → IsValidAfter (elim out [ none ↦ none | some x ↦ some (resubmit req ts x) ])
    go none h = h
    go (some x) h = resubmit-IsValid req ts x h

-- A client's calls of a book, each with its time.
pub data Call : Type 0 where
  adds : Order → Timestamp → Call
  cancels : OrderId → Timestamp → Call
  replaces : ReplaceRequest → Timestamp → Call

unfoldable pub call : Book → Call → Option (Book × ExecutionReport × List BookEvent)
call b (adds o ts) = some (add_order b o ts)
call b (cancels i ts) = cancel_order b i ts
call b (replaces req ts) = replace_order b req ts

unfoldable pub run : Book → List Call → Option Book
run b [] = some b
run b (c ∷ cs) = elim (call b c) [ none ↦ none | some out ↦ run out.0 cs ]

abbrev pub IsValidBook : Option Book → Type 0
IsValidBook none = ⊥
IsValidBook (some b) = IsValid b

call-IsValid : (b : Book) (c : Call) → IsValid b → IsValidAfter (call b c)
unfolding call
call-IsValid b (adds o ts) v = add_order-IsValid b o ts v
call-IsValid b (cancels i ts) v = cancel_order-IsValid b i ts v
call-IsValid b (replaces req ts) v = replace_order-IsValid b req ts v

pub run-IsValid : (b : Book) (cs : List Call) → IsValid b → IsValidBook (run b cs)
unfolding run
run-IsValid b [] v = v
run-IsValid b (c ∷ cs) v = go (call b c) (call-IsValid b c v) (λ b' h. run-IsValid b' cs h)
  where
    go :
        (out : Option (Book × ExecutionReport × List BookEvent))
        → IsValidAfter out
        → ((b' : Book) → IsValid b' → IsValidBook (run b' cs))
        → IsValidBook (elim out [ none ↦ none | some x ↦ run x.0 cs ])
    go none h k = h
    go (some x) h k = k x.0 h

-- On a new book every sequence of new orders, cancellations and replacements returns, so no
-- iterator of the index dangles, and leaves a valid book: both sides sorted by price with one
-- non-empty queue per price, every resting order of its level's side and price with a positive
-- open quantity, every id resting at most once and found by the index exactly where it rests, both
-- order counts right, and every bid below every ask.
pub run-init-IsValid : (symbol : Symbol) (cs : List Call) → IsValidBook (run (init symbol) cs)
run-init-IsValid symbol cs = run-IsValid (init symbol) cs (init-IsValid symbol)
