-- ===== src/L3Book/Tests.antt =====
-- Runs of the book of `l3_order_book.cpp` on small inputs, and the witnesses of its theorems.
use hft_sdk.Base.{List, [], arith, false, neg_part, pos, pos_part, refl, ◌<ℤ◌, ◌∷◌, ◌≡◌}
use hft_sdk.Types.{Order, OrderId, Price, Quantity, ReplaceRequest, buy, default_order, fok, sell}
use hft_sdk.L3Book.{Book, init}
use hft_sdk.L3Book.Match.{cannot_fill, match_incoming}
use hft_sdk.L3Book.Ops.{add_order, cancel_order}
use hft_sdk.L3Book.Runs.{runs}
use hft_sdk.L3Book.Steps.{AllOrders}
use hft_sdk.L3Book.Fills.{Conserves, match_incoming-Conserves}
use hft_sdk.L3Book.Trades.{IsOffer, Trades, match_incoming-Trades}
use hft_sdk.L3Book.Fok.{AllOrNothing, match_incoming-AllOrNothing}
use hft_sdk.L3Book.Valid.{IsValid, init-IsValid}
use hft_sdk.L3Book.Priority.{FollowsPriority, match_incoming-FollowsPriority}
use hft_sdk.L3Book.Valid.Matching.{Clear, match_incoming-Clear}
use hft_sdk.L3Book.Valid.Cancelling.{CancelOutcome, cancel_order-CancelOutcome}
use hft_sdk.L3Book.Valid.Adding.{
  Call, adds, cancels, replaces, run, IsValidBook, add_order-IsValid, run-init-IsValid,
}

abbrev ask_at : OrderId → Price → Quantity → Order
ask_at i p q = record default_order { id = i; side = sell; price = p; quantity = q }

abbrev bid_at : OrderId → Price → Quantity → Order
bid_at i p q = record default_order { id = i; side = buy; price = p; quantity = q }

abbrev fok_at : OrderId → Price → Quantity → Order
fok_at i p q = record (bid_at i p q) { tif = fok }

abbrev one_ask : Book
one_ask = (add_order (init 7) (ask_at 1 (pos 100) (pos 5)) 10).0

abbrev two_asks : Book
two_asks = (add_order one_ask (ask_at 2 (pos 101) (pos 5)) 11).0

crossing : (add_order two_asks (bid_at 3 (pos 101) (pos 7)) 12).1.filled_qty ≡ pos 7
unfolding runs
crossing = refl

resting : (add_order two_asks (bid_at 3 (pos 99) (pos 7)) 12).1.leaves_qty ≡ pos 7
unfolding runs
resting = refl

killed : (match_incoming two_asks (fok_at 3 (pos 101) (pos 11)) 12).1.fully_filled ≡ false
unfolding runs
killed = refl

two_asks-IsValid : IsValid two_asks
two_asks-IsValid =
    add_order-IsValid one_ask (ask_at 2 (pos 101) (pos 5)) 11
      (add_order-IsValid (init 7) (ask_at 1 (pos 100) (pos 5)) 10 (init-IsValid 7))

two_asks-offers : AllOrders IsOffer two_asks.asks
unfolding runs
two_asks-offers = (omega arith, omega arith)

abbrev changed : ReplaceRequest
changed = record {
  order_id = 2;
  trader_id = 4;
  symbol = 7;
  new_price = pos 99;
  new_qty = pos 3;
  submit_time = 12;
  cl_ord_id = [];
  orig_cl_ord_id = [];
}

abbrev calls : List Call
calls =
    adds (ask_at 1 (pos 100) (pos 5)) 10
    ∷ adds (bid_at 2 (pos 100) (pos 3)) 11
    ∷ replaces changed 12
    ∷ cancels 1 13
    ∷ []

run-init-IsValid_example : IsValidBook (run (init 7) calls)
run-init-IsValid_example = run-init-IsValid 7 calls

match_incoming-Conserves_example :
    let o = bid_at 3 (pos 101) (pos 7) in
    let (b', r) = match_incoming two_asks o 12 in Conserves two_asks o b' r
match_incoming-Conserves_example = match_incoming-Conserves two_asks (bid_at 3 (pos 101) (pos 7)) 12

match_incoming-Trades_example :
    let o = bid_at 3 (pos 101) (pos 7) in
    let (b', r) = match_incoming two_asks o 12 in Trades two_asks o 12 b' r
unfolding pos_part neg_part
match_incoming-Trades_example =
    match_incoming-Trades two_asks (bid_at 3 (pos 101) (pos 7)) 12 (omega arith) two_asks-offers

match_incoming-AllOrNothing_example :
    let o = fok_at 3 (pos 101) (pos 7) in
    let (b', r) = match_incoming two_asks o 12 in AllOrNothing two_asks o b' r
unfolding pos_part neg_part
match_incoming-AllOrNothing_example =
    match_incoming-AllOrNothing two_asks (fok_at 3 (pos 101) (pos 7)) 12 refl (omega arith)
      two_asks-offers

two_left : pos 0 <ℤ (match_incoming two_asks (bid_at 3 (pos 100) (pos 7)) 12).1.remaining_qty
unfolding runs
two_left = omega arith

match_incoming-Clear_example :
    let (b', r) = match_incoming two_asks (bid_at 3 (pos 100) (pos 7)) 12 in
    Clear buy (pos 100) b'.asks
match_incoming-Clear_example =
    match_incoming-Clear two_asks (bid_at 3 (pos 100) (pos 7)) 12 two_asks-IsValid refl refl
      two_left

-- Three of the five of order 1 are filled.
abbrev part_filled : Book
part_filled = (add_order one_ask (bid_at 3 (pos 100) (pos 3)) 12).0

part_filled-IsValid : IsValid part_filled
part_filled-IsValid =
    add_order-IsValid one_ask (bid_at 3 (pos 100) (pos 3)) 12
      (add_order-IsValid (init 7) (ask_at 1 (pos 100) (pos 5)) 10 (init-IsValid 7))

cancel_order-CancelOutcome_example : CancelOutcome part_filled 1 13 (cancel_order part_filled 1 13)
cancel_order-CancelOutcome_example = cancel_order-CancelOutcome part_filled 1 13 part_filled-IsValid

can_fill : cannot_fill two_asks (bid_at 3 (pos 100) (pos 7)) ≡ false
unfolding cannot_fill
can_fill = refl

match_incoming-FollowsPriority_example :
    let (b', r) = match_incoming two_asks (bid_at 3 (pos 100) (pos 7)) 12 in
    FollowsPriority two_asks (bid_at 3 (pos 100) (pos 7)) b' r
match_incoming-FollowsPriority_example =
    match_incoming-FollowsPriority two_asks (bid_at 3 (pos 100) (pos 7)) 12 two_asks-IsValid
      can_fill
