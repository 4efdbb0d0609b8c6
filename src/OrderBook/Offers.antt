-- ===== src/OrderBook/Offers.antt =====
-- The trades of `matchIncoming` of `order_book.cpp` as the walk over offers that the L3 book follows too.
use hft_sdk.Base.{
  All, Bool-cases, List, [], ap, append-nil, append_assoc, arith, false, inl, inr, ltb_ℤ, map,
  min_ℤ, not, pos, refl, sym, true, ◌&&◌, ◌++◌, ◌-ℤ◌, ◌==ℤ◌, ◌∙◌, ◌∷◌, ◌≡◌, ◌≢◌,
}
use hft_sdk.Types.{Order, Price, Quantity, Symbol, Timestamp}
use hft_sdk.L3Book.Match.{breaks_at}
use hft_sdk.L3Book.Offers.{Offer, taken, untaken, of_trade, of_trade-snoc, taken_none}
use hft_sdk.OrderBook.Quantities.{fill_one-ends}
use hft_sdk.OrderBook.{
  BookOrder, BookNode, PriceLevel, Filling, is_beyond, fill_one, fill_queue, fill_side, keep_filled,
}

abbrev pub node_offer : Price → BookNode → Offer
node_offer p n = record { id = n.order.id; price = p; quantity = n.order.qty }

abbrev pub node_offers : Price → List BookNode → List Offer
node_offers p q = map (node_offer p) q

unfoldable pub book_offers : List PriceLevel → List Offer
book_offers [] = []
book_offers (l ∷ ls) = node_offers l.price l.queue ++ book_offers ls

-- No level is empty.
abbrev pub IsFilled : List PriceLevel → Type 0
IsFilled ls = All (λ l. l.queue ≢ []) ls

-- One request in the forms of the two books.
pub record SameRequest (o : BookOrder) (r : Order) : Type 0 where
  pub id : o.id ≡ r.id
  pub side : o.side ≡ r.side
  pub type : o.type ≡ r.type
  pub price : o.price ≡ r.price
  pub qty : o.qty ≡ r.quantity

is_beyond-breaks_at :
    (o : BookOrder) (r : Order) (p : Price) → SameRequest o r → is_beyond o p ≡ breaks_at r p
unfolding breaks_at
is_beyond-breaks_at o r p e = rw (e.side, e.type, e.price) (ground arith)

offers-keep_filled :
    (p : Price) (q : List BookNode) (ls : List PriceLevel)
    → book_offers (keep_filled p q ls) ≡ node_offers p q ++ book_offers ls
unfolding book_offers
offers-keep_filled p [] ls = refl
offers-keep_filled p (n ∷ q) ls = refl

taken_beyond :
    (r : Order) (left : Quantity) (p : Price) (q : List BookNode) (os : List Offer)
    → q ≢ []
    → ltb_ℤ (pos 0) left && not (breaks_at r p) ≡ false
    → (taken r left (node_offers p q ++ os) ≡ [])
      × (untaken r left (node_offers p q ++ os) ≡ node_offers p q ++ os)
unfolding taken untaken
taken_beyond r left p [] os n h = absurd (n refl)
taken_beyond r left p (o ∷ q) os n h = rw h (refl, refl)

module _ (symbol : Symbol) (incoming : BookOrder) (ts : Timestamp) (r : Order) where
  -- The trades so far and those to come, and the offers that are left, from `f` with the offers `os`
  -- ahead to `g` with `ps` ahead and `done` left behind.
  record Advances (f : Filling) (os : List Offer) (g : Filling) (done ps : List Offer)
      : Type 0 where
    trades :
        map of_trade g.trades ++ taken r g.remaining ps
        ≡ map of_trade f.trades ++ taken r f.remaining os
    remains : done ++ untaken r g.remaining ps ≡ untaken r f.remaining os

  fill_one-taken :
      (p : Price) (n : BookNode) (f : Filling) (os : List Offer)
      → ltb_ℤ (pos 0) f.remaining ≡ true
      → breaks_at r p ≡ false
      → let g = fill_one symbol incoming ts p n.order f in
        map of_trade g.trades ++ taken r g.remaining os
        ≡ map of_trade f.trades ++ taken r f.remaining (node_offer p n ∷ os)
  unfolding fill_one taken
  fill_one-taken p n f os h k =
      let rest = taken r (f.remaining -ℤ min_ℤ f.remaining n.order.qty) os in
      ap (λ l. l ++ rest) (of_trade-snoc f.trades _)
      ∙ append_assoc (map of_trade f.trades) _ rest
      ∙ rw (h, k) refl

  remaining-fill_one :
      (p : Price) (o : BookOrder) (f : Filling)
      → (fill_one symbol incoming ts p o f).remaining ≡ f.remaining -ℤ min_ℤ f.remaining o.qty
  unfolding fill_one
  remaining-fill_one p o f = refl

  -- The front of the queue after it was not used up.
  abbrev with_qty : BookNode → Filling → BookNode
  with_qty n f = record n {
    order = record (n.order) { qty = n.order.qty -ℤ min_ℤ f.remaining n.order.qty };
  }

  fill_queue-Advances :
      (p : Price) (q : List BookNode) (f : Filling) (os : List Offer)
      → breaks_at r p ≡ false
      → let (q', f') = fill_queue symbol incoming ts p q f in
        Advances f (node_offers p q ++ os) f' (node_offers p q') os
  unfolding fill_queue untaken
  fill_queue-Advances p [] f os k = record { trades = refl; remains = refl }
  fill_queue-Advances p (n ∷ q) f os k =
      let g = fill_one symbol incoming ts p n.order f in
      let all = node_offers p q ++ os in
      let same = ap (λ left. untaken r left all) (remaining-fill_one p n.order f) in
      elim (Bool-cases (ltb_ℤ (pos 0) f.remaining)) [
        | inr h ↦
            let none_now = taken_none r f.remaining os h in
            let none_all = taken_none r f.remaining (node_offers p (n ∷ q) ++ os) h in
            rw h (record {
              trades = ap (λ l. map of_trade f.trades ++ l) (none_now.0 ∙ sym none_all.0);
              remains = ap (λ l. node_offers p (n ∷ q) ++ l) none_now.1 ∙ sym none_all.1;
            })
        | inl h ↦
            let t = fill_one-taken p n f all h k in
            elim (Bool-cases ((n.order.qty -ℤ min_ℤ f.remaining n.order.qty) ==ℤ pos 0)) [
              | inl e ↦
                  let ih = fill_queue-Advances p q g os k in
                  rw (h, e)
                    (record { trades = ih.trades ∙ t; remains = ih.remains ∙ rw (h, k, e) same })
              | inr e ↦
                  let ends = fill_one-ends symbol incoming ts p n.order f e in
                  let none_now = taken_none r g.remaining os ends in
                  let none_all = taken_none r g.remaining all ends in
                  rw (h, e)
                    (record {
                      trades =
                          ap (λ l. map of_trade g.trades ++ l) (none_now.0 ∙ sym none_all.0) ∙ t;
                      remains =
                          rw (h, k, e)
                            (ap (λ l. node_offer p (with_qty n f) ∷ l)
                              (ap (λ l. node_offers p q ++ l) none_now.1 ∙ sym none_all.1 ∙ same));
                    })
            ]
      ]

  pub fill_side-taken :
      (ls : List PriceLevel) (f : Filling)
      → SameRequest incoming r
      → IsFilled ls
      → let (ls', f') = fill_side symbol incoming ts ls f in
        (map of_trade f'.trades ≡ map of_trade f.trades ++ taken r f.remaining (book_offers ls))
        × (book_offers ls' ≡ untaken r f.remaining (book_offers ls))
  unfolding fill_side book_offers taken untaken
  fill_side-taken [] f e v = (sym (append-nil _), refl)
  fill_side-taken (l ∷ ls) f e v =
      let b = is_beyond-breaks_at incoming r l.price e in
      elim (Bool-cases (ltb_ℤ (pos 0) f.remaining && not (breaks_at r l.price))) [
        | inr h ↦
            let stop = taken_beyond r f.remaining l.price l.queue (book_offers ls) v.0 h in
            rw (b, h, stop.0) (sym (append-nil _), sym stop.1)
        | inl h ↦
            let w = fill_queue-Advances l.price l.queue f (book_offers ls) (ground arith) in
            let (q', f') = fill_queue symbol incoming ts l.price l.queue f in
            let (t, u) = fill_side-taken ls f' e v.1 in
            rw (b, h)
              (
                t ∙ w.trades,
                offers-keep_filled l.price q' _
                    ∙ ap (λ os. node_offers l.price q' ++ os) u
                    ∙ w.remains,
              )
      ]
