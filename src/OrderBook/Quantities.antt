-- ===== src/OrderBook/Quantities.antt =====
-- The quantities of `matchIncoming` of `order_book.cpp`.
use hft_sdk.Base.{
  ==ℤ_iff, Bool-cases, List, [], false, inl, inr, int_laws, le→ltb_ℤ, ltb_ℤ, min_ℤ, min_ℤ_cases,
  not, pos, refl, sum_ℤ, ◌&&◌, ◌+ℤ◌, ◌-ℤ◌, ◌==ℤ◌, ◌∙◌, ◌∷◌, ◌≡◌,
}
use hft_sdk.Types.{Price, Symbol, Timestamp}
use hft_sdk.L3Book.Fills.{traded, traded-snoc}
use hft_sdk.OrderBook.{
  BookOrder, BookNode, PriceLevel, OrderBook, Filling, is_beyond, fill_one, fill_queue, fill_side,
  side_of, resting_side, match_book_order,
}

module _ (symbol : Symbol) (incoming : BookOrder) (ts : Timestamp) where
  fill_one-total :
      (p : Price) (o : BookOrder) (f : Filling)
      → let f' = fill_one symbol incoming ts p o f in
        f'.remaining +ℤ traded f'.trades ≡ f.remaining +ℤ traded f.trades
  unfolding fill_one
  fill_one-total p o f = rw traded-snoc (omega int_laws)

  -- With quantity left in the resting order nothing remains of the incoming one.
  pub fill_one-ends :
      (p : Price) (o : BookOrder) (f : Filling)
      → ((o.qty -ℤ min_ℤ f.remaining o.qty) ==ℤ pos 0) ≡ false
      → ltb_ℤ (pos 0) (fill_one symbol incoming ts p o f).remaining ≡ false
  unfolding fill_one
  fill_one-ends p o f e = elim (min_ℤ_cases f.remaining o.qty) [
    | inl c ↦
        let z : o.qty -ℤ min_ℤ f.remaining o.qty ≡ pos 0 = rw c.0 (omega int_laws) in
        let y = (==ℤ_iff _ _).1 z in cc
    | inr c ↦ rw c.0 (le→ltb_ℤ (pos 0) _ (omega int_laws))
  ]

  fill_queue-total :
      (p : Price) (q : List BookNode) (f : Filling)
      → let f' = (fill_queue symbol incoming ts p q f).1 in
        f'.remaining +ℤ traded f'.trades ≡ f.remaining +ℤ traded f.trades
  unfolding fill_queue
  fill_queue-total p [] f = refl
  fill_queue-total p (n ∷ q) f =
      let o = n.order in
      let h = fill_one-total p o f in
      elim (Bool-cases (ltb_ℤ (pos 0) f.remaining)) [
        | inr e ↦ rw e refl
        | inl e ↦ rw e (elim (Bool-cases ((o.qty -ℤ min_ℤ f.remaining o.qty) ==ℤ pos 0)) [
          | inl g ↦ rw g (fill_queue-total p q (fill_one symbol incoming ts p o f) ∙ h)
          | inr g ↦ rw g h
        ])
      ]

  fill_side-total :
      (ls : List PriceLevel) (f : Filling)
      → let f' = (fill_side symbol incoming ts ls f).1 in
        f'.remaining +ℤ traded f'.trades ≡ f.remaining +ℤ traded f.trades
  unfolding fill_side
  fill_side-total [] f = refl
  fill_side-total (l ∷ ls) f =
      elim (Bool-cases (ltb_ℤ (pos 0) f.remaining && not (is_beyond incoming l.price))) [
        | inr e ↦ rw e refl
        | inl e ↦ rw e (fill_side-total ls _ ∙ fill_queue-total l.price l.queue f)
      ]

-- On every simple book and for every order, the remaining quantity and the traded quantities make
-- up the quantity of the order.
pub match_book_order-total :
    (b : OrderBook) (o : BookOrder) (ts : Timestamp)
    → let f = (match_book_order b o ts).1 in f.remaining +ℤ traded f.trades ≡ o.qty
unfolding match_book_order sum_ℤ
match_book_order-total b o ts =
    fill_side-total b.symbol o ts (side_of b (resting_side o.side)) _ ∙ omega int_laws
