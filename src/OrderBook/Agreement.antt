-- ===== src/OrderBook/Agreement.antt =====
-- The simple book of `order_book.cpp` and the book of `l3_order_book.cpp` on one request.
use hft_sdk.Base.{
  List, [], ap, false, int_laws, map, parts_of_eq, refl, sum_ℤ, sym, ◌+ℤ◌, ◌∙◌, ◌∷◌, ◌≡◌,
}
use hft_sdk.Types.{Order, Quantity, Side, Timestamp, Trade, buy, sell}
use hft_sdk.L3Book.{Book, MatchResult}
use hft_sdk.L3Book.Fills.{traded, match_incoming-Conserves}
use hft_sdk.L3Book.Match.{cannot_fill, match_incoming, opposite}
use hft_sdk.L3Book.Offers.{Offer, offers, of_trade, taken, untaken}
use hft_sdk.L3Book.Priority.{match_incoming-FollowsPriority}
use hft_sdk.L3Book.Valid.{IsValid}
use hft_sdk.OrderBook.{
  BookOrder, PriceLevel, OrderBook, Filling, match_book_order, side_of, with_side, resting_side,
}
use hft_sdk.OrderBook.Offers.{book_offers, IsFilled, SameRequest, fill_side-taken}
use hft_sdk.OrderBook.Valid.{IsBookSide, IsValidBook}
use hft_sdk.OrderBook.Written.{
  common, map-common_agree, fill_side-OfIncoming, match_incoming-IsWritten,
}
use hft_sdk.OrderBook.Quantities.{match_book_order-total}

-- The offers that a request may trade against, in the simple book and in the L3 book.
abbrev pub against : OrderBook → Side → List Offer
against b s = book_offers (side_of b (resting_side s))

abbrev pub against_l3 : Book → Side → List Offer
against_l3 b s = offers (opposite b s)

side_of-with_side :
    (b : OrderBook) (s : Side) (ls : List PriceLevel) → side_of (with_side s ls b) s ≡ ls
side_of-with_side b buy ls = refl
side_of-with_side b sell ls = refl

IsBookSide-IsFilled : (s : Side) (ls : List PriceLevel) → IsBookSide s ls → IsFilled ls
IsBookSide-IsFilled s [] v = tt
IsBookSide-IsFilled s (l ∷ ls) v = (v.0, IsBookSide-IsFilled s ls v.2)

-- The outcomes of one request on the two books.
pub record Agrees (s : Side) (b : OrderBook × Filling) (c : Book × MatchResult) : Type 0 where
  pub trades : map common b.1.trades ≡ map common c.1.trades
  pub remaining : b.1.remaining ≡ c.1.remaining_qty
  pub left_over : against b.0 s ≡ against_l3 c.0 s

traded-of_trade : (ts : List Trade) → traded ts ≡ sum_ℤ (map (λ o. o.quantity) (map of_trade ts))
unfolding sum_ℤ
traded-of_trade [] = refl
traded-of_trade (t ∷ ts) = ap (λ n. t.qty +ℤ n) (traded-of_trade ts)

-- On a valid simple book and a valid L3 book of one symbol that offer the same orders against the
-- side of a request, which is not refused as a fill-or-kill order, the matching of both leaves the
-- same quantity of the request and the same offers, and makes as many trades, which agree in their
-- order in all that both books write: the resting and the incoming id, the symbol, the side of the
-- aggressor, the price, the quantity and the time. The trade id and the two traders, which the
-- simple book leaves at zero, are not compared.
pub match_book_order-match_incoming :
    (b : OrderBook) (c : Book) (o : BookOrder) (r : Order) (ts : Timestamp)
    → IsValidBook b
    → IsValid c
    → SameRequest o r
    → b.symbol ≡ c.symbol
    → cannot_fill c r ≡ false
    → against b o.side ≡ against_l3 c o.side
    → Agrees o.side (match_book_order b o ts) (match_incoming c r ts)
unfolding match_book_order
match_book_order-match_incoming b c o r ts w valid e of_symbol can same =
    let full = IsBookSide-IsFilled _ _ (w.sides (resting_side o.side)).0 in
    let p = match_incoming-FollowsPriority c r ts valid can in
    let s = resting_side o.side in
    let begun : Filling = record { order_index = b.order_index; trades = []; remaining = o.qty } in
    let q = fill_side-taken b.symbol o ts r (side_of b s) begun e full in
    let walk : (f : Order → Quantity → List Offer → List Offer)
        → f r o.qty (against b o.side) ≡ f r r.quantity (against_l3 c r.side) =
      λ f.
        ap (λ n. f r n (against b o.side)) e.qty
        ∙ ap (f r r.quantity) (same ∙ ap (against_l3 c) e.side) in
    let trades = q.0 ∙ walk taken ∙ sym p.trades in
    record {
      trades =
          map-common_agree b.symbol c.symbol o.id r.id o.side r.side ts _ _ of_symbol e.id e.side
            (fill_side-OfIncoming b.symbol o ts (side_of b s) begun tt)
            (match_incoming-IsWritten c r ts) trades;
      remaining =
          let a = parts_of_eq (match_book_order-total b o ts) in
          let d = parts_of_eq ((match_incoming-Conserves c r ts).order_side) in
          let t = parts_of_eq (
            traded-of_trade _
            ∙ ap (λ os. sum_ℤ (map (λ x. x.quantity) os)) trades
            ∙ sym (traded-of_trade _)) in
          omega (int_laws, a, d, t, parts_of_eq e.qty);
      left_over =
          ap book_offers (side_of-with_side _ s _)
          ∙ q.1
          ∙ walk untaken
          ∙ sym p.left_over
          ∙ ap (against_l3 (match_incoming c r ts).0) (sym e.side);
    }
