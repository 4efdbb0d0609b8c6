-- ===== src/OrderBook/Valid/Calls.antt =====
-- A simple book of `order_book.cpp` over a sequence of calls.
use hft_sdk.Base.{List, Option, [], none, refl, some, ◌∷◌, ◌≡◌}
use hft_sdk.Types.{OrderId, Symbol, Timestamp}
use hft_sdk.OrderBook.{
  BookOrder, OrderBook, new_order_book, add_book_order, cancel_book_order, match_book_order,
}
use hft_sdk.OrderBook.Valid.{IsValidBook, new_order_book-IsValidBook}
use hft_sdk.OrderBook.Valid.Adding.{add_book_order-IsValidBook}
use hft_sdk.OrderBook.Valid.Cancelling.{cancel_book_order-Cancels}
use hft_sdk.OrderBook.Valid.Matching.{match_book_order-IsValidBook}

pub data BookCall : Type 0 where
  adds_order : BookOrder → BookCall
  cancels_order : OrderId → BookCall
  matches_order : BookOrder → Timestamp → BookCall

-- The book after a call; `none` is the use of an iterator whose node is gone.
unfoldable pub book_call : BookCall → OrderBook → Option OrderBook
book_call (adds_order o) b = some (add_book_order b o)
book_call (cancels_order id) b = elim (cancel_book_order b id) [ none ↦ none | some r ↦ some r.0 ]
book_call (matches_order o ts) b = some (match_book_order b o ts).0

unfoldable pub book_calls : List BookCall → OrderBook → Option OrderBook
book_calls [] b = some b
book_calls (c ∷ cs) b = elim (book_call c b) [ none ↦ none | some b' ↦ book_calls cs b' ]

-- A call or a sequence of calls that returns a valid book.
pub record IsServed (out : Option OrderBook) : Type 0 where
  pub after : OrderBook
  pub returned : out ≡ some after
  pub valid : IsValidBook after

book_call-IsServed : (c : BookCall) (b : OrderBook) → IsValidBook b → IsServed (book_call c b)
unfolding book_call
book_call-IsServed (adds_order o) b v = record {
  after = _;
  returned = refl;
  valid = add_book_order-IsValidBook b o v;
}
book_call-IsServed (cancels_order id) b v =
    let r = cancel_book_order-Cancels b id v in
    record { after = r.after; returned = rw (r.returned, book_call) refl; valid = r.valid }
book_call-IsServed (matches_order o ts) b v = record {
  after = _;
  returned = refl;
  valid = match_book_order-IsValidBook b o ts v;
}

book_calls-IsServed :
    (cs : List BookCall) (b : OrderBook) → IsValidBook b → IsServed (book_calls cs b)
unfolding book_calls
book_calls-IsServed [] b v = record { after = b; returned = refl; valid = v }
book_calls-IsServed (c ∷ cs) b v =
    let r = book_call-IsServed c b v in
    rw (r.returned, book_calls) (book_calls-IsServed cs r.after r.valid)

-- On a new simple book every sequence of new orders, cancellations and matchings returns, so no
-- iterator of the index dangles, also where orders share an id, and leaves a valid book: each side
-- sorted by price, with no empty queue, and every id in the index at a node of an order with that
-- id, at the price and on the side of its entry.
pub book_calls-new_order_book :
    (symbol : Symbol) (cs : List BookCall) → IsServed (book_calls cs (new_order_book symbol))
book_calls-new_order_book symbol cs =
    book_calls-IsServed cs (new_order_book symbol) (new_order_book-IsValidBook symbol)
