-- ===== src/OrderBook/Tests.antt =====
-- Runs of the simple book, and the witnesses of the theorems on `order_book.cpp`.
use hft_sdk.Base.{
  [], arith, erase, false, insert, lookup, neg_part, pos, pos_part, refl, some, ◌∷◌, ◌≡◌,
}
use hft_sdk.Types.{Order, buy, day, default_order, limit, sell}
use hft_sdk.L3Book.{Book, init}
use hft_sdk.L3Book.Match.{cannot_fill, match_incoming}
use hft_sdk.L3Book.Ops.{add_order}
use hft_sdk.L3Book.Runs.{runs}
use hft_sdk.L3Book.Valid.{init-IsValid}
use hft_sdk.L3Book.Valid.Adding.{add_order-IsValid}
use hft_sdk.OrderBook.{
  book_order, BookOrder, OrderBook, new_order_book, add_book_order, push_order, erase_in, erase_it,
  cancel_book_order, match_book_order, side_of,
}
use hft_sdk.OrderBook.Agreement.{Agrees, against, against_l3, match_book_order-match_incoming}
use hft_sdk.L3Book.Offers.{offers}
use hft_sdk.OrderBook.Offers.{book_offers}
use hft_sdk.OrderBook.Loops.{IsEnough, match_loops, match_loops-match_book_order}
use hft_sdk.OrderBook.Valid.{IsValidBook, new_order_book-IsValidBook}
use hft_sdk.OrderBook.Valid.Adding.{add_book_order-IsValidBook}
use hft_sdk.OrderBook.Valid.Calls.{
  adds_order, cancels_order, matches_order, book_call, book_calls, IsServed,
  book_calls-new_order_book,
}

abbrev offer : BookOrder
offer = record {
  id = 1;
  trader = 4;
  qty = pos 5;
  price = pos 100;
  side = sell;
  type = limit;
  ts_ns = 10;
}

abbrev taker : BookOrder
taker =
    book_order
      (record {
        id = 2;
        trader = 5;
        symbol = 65 ∷ [];
        side = buy;
        type = limit;
        tif = day;
        price = pos 101;
        qty = pos 7;
      })
      11

abbrev one_offer : OrderBook
one_offer = add_book_order (new_order_book 7) offer

-- Another order under the id of the offer, which takes its place in the index.
abbrev same_id : OrderBook
same_id = add_book_order one_offer (record offer { price = pos 102 })

-- The cancellation of the id erases the later order, and then finds nothing more under the id.
cancelled_later :
    book_calls (cancels_order 1 ∷ cancels_order 1 ∷ []) same_id
    ≡ some (record same_id { asks = one_offer.asks; order_index = [] })
unfolding book_calls book_call cancel_book_order add_book_order push_order erase_in erase_it insert
    lookup erase pos_part neg_part
cancelled_later = refl

one_offer-IsValidBook : IsValidBook one_offer
one_offer-IsValidBook =
    add_book_order-IsValidBook (new_order_book 7) offer (new_order_book-IsValidBook 7)

book_calls-new_order_book_example : IsServed (
    book_calls
      (adds_order offer ∷ matches_order taker 12 ∷ cancels_order 1 ∷ [])
      (new_order_book 7))
book_calls-new_order_book_example =
    book_calls-new_order_book 7 (adds_order offer ∷ matches_order taker 12 ∷ cancels_order 1 ∷ [])

fuel_IsEnough : IsEnough 3 (side_of one_offer sell)
unfolding add_book_order push_order
fuel_IsEnough = (omega arith, (omega arith, tt))

match_loops-match_book_order_example :
    match_loops 3 one_offer taker 12 ≡ some (match_book_order one_offer taker 12)
match_loops-match_book_order_example =
    match_loops-match_book_order one_offer taker 12 3 fuel_IsEnough

-- The same offer in the other book.
abbrev l3_offer : Book
l3_offer =
    (add_order (init 7)
      (record default_order {
        id = 1;
        trader_id = 4;
        symbol = 7;
        side = sell;
        price = pos 100;
        quantity = pos 5;
      })
      10).0

abbrev l3_taker : Order
l3_taker = record default_order {
  id = 2;
  trader_id = 5;
  symbol = 7;
  price = pos 101;
  quantity = pos 7;
}

same_offers : against one_offer buy ≡ against_l3 l3_offer buy
unfolding runs add_book_order push_order book_offers offers
same_offers = refl

same_symbol : one_offer.symbol ≡ l3_offer.symbol
unfolding runs add_book_order
same_symbol = refl

nothing_to_fill : cannot_fill l3_offer l3_taker ≡ false
unfolding runs
nothing_to_fill = refl

match_book_order-match_incoming_example :
    Agrees buy (match_book_order one_offer taker 12) (match_incoming l3_offer l3_taker 12)
match_book_order-match_incoming_example =
    match_book_order-match_incoming one_offer l3_offer taker l3_taker 12 one_offer-IsValidBook
      (add_order-IsValid (init 7) _ 10 (init-IsValid 7))
      (record { id = refl; side = refl; type = refl; price = refl; qty = refl }) same_symbol
      nothing_to_fill same_offers
