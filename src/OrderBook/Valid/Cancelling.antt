-- ===== src/OrderBook/Valid/Cancelling.antt =====
-- `cancelOrder` on a valid simple book: it never uses an iterator whose node is gone.
use hft_sdk.Base.{
  ==_iff, All, Bool, Bool-cases, List, Option, Option-cases, [], ap, arith, erase, false, inl, inr,
  lookup, lookup-erase, lookup-erase-some, none, refl, some, subst, sym, true, ℕ, ◌==ℤ◌, ◌==◌, ◌∙◌,
  ◌∷◌, ◌≡◌, ◌≢◌,
}
use hft_sdk.Types.{OrderId, Price, Side, buy, sell}
use hft_sdk.OrderBook.{
  BookNode, PriceLevel, BookLocation, OrderBook, comes_first, erase_it, erase_in, keep_filled,
  side_of, with_side, cancel_book_order,
}
use hft_sdk.OrderBook.Valid.{
  IsBookSide, Owned, SideOwned, Has, At, IsValidBook, At-keep_filled, keep_filled-IsBookSide,
  All-keep_filled, with_side-IsValidBook, Side-cases,
}

module _ (owner : ℕ → OrderId) (bound : ℕ) (it : ℕ) (id : OrderId) where
  Has-owner : (q : List BookNode) → Owned owner bound q → Has it id q → owner it ≡ id
  Has-owner [] a h = absurd h
  Has-owner (n ∷ q) a (inl e) = ap owner (sym e.0) ∙ a.0.0 ∙ e.1
  Has-owner (n ∷ q) a (inr h) = Has-owner q a.1 h

  -- A queue after its node `it` was erased.
  record Erases (q : List BookNode) (out : Option (List BookNode)) : Type 0 where
    left : List BookNode
    erased : out ≡ some left
    owned : Owned owner bound left
    others : (k : ℕ) (j : OrderId) → j ≢ id → Has k j q → Has k j left

  erase_it-Erases :
      (q : List BookNode) → Owned owner bound q → Has it id q → Erases q (erase_it it q)
  unfolding erase_it
  erase_it-Erases [] a h = absurd h
  erase_it-Erases (n ∷ q) a h = elim (Bool-cases (n.node == it)) [
    | inl e ↦
        let here : n.order.id ≡ id =
          sym a.0.0 ∙ ap owner ((==_iff n.node it).0 e) ∙ Has-owner (n ∷ q) a h in
        rw e
          (record { left = q; erased = refl; owned = a.1; others = λ k j ne g. skip here k j ne g })
    | inr e ↦
        let r = erase_it-Erases q a.1 (deeper e h) in
        rw (e, r.erased, erase_it)
          (record {
            left = n ∷ r.left;
            erased = refl;
            owned = (a.0, r.owned);
            others = λ k j ne g. keep r.left r.others k j ne g;
          })
  ]
    where
      skip : n.order.id ≡ id → (k : ℕ) (j : OrderId) → j ≢ id → Has k j (n ∷ q) → Has k j q
      skip here k j ne (inl g) = absurd (ne (sym g.1 ∙ here))
      skip here k j ne (inr g) = g

      deeper : (n.node == it) ≡ false → Has it id (n ∷ q) → Has it id q
      deeper e (inl g) = let w = (==_iff n.node it).1 g.0 in absurd cc
      deeper e (inr g) = g

      keep :
          (r : List BookNode)
          → ((k : ℕ) (j : OrderId) → j ≢ id → Has k j q → Has k j r)
          → (k : ℕ) (j : OrderId) → j ≢ id
          → Has k j (n ∷ q)
          → Has k j (n ∷ r)
      keep r f k j ne (inl g) = inl g
      keep r f k j ne (inr g) = inr (f k j ne g)

  record ErasesIn (s : Side) (ls : List PriceLevel) (out : Option (List PriceLevel)) : Type 1 where
    left : List PriceLevel
    erased : out ≡ some left
    sorted : IsBookSide s left
    owned : SideOwned owner bound left
    prices : (P : Price → Type 0) → All (λ l. P l.price) ls → All (λ l. P l.price) left
    others : (r : Price) (k : ℕ) (j : OrderId) → j ≢ id → At r k j ls → At r k j left

  erase_in-ErasesIn :
      (s : Side) (p : Price) (ls : List PriceLevel)
      → IsBookSide s ls
      → SideOwned owner bound ls
      → At p it id ls
      → ErasesIn s ls (erase_in p it ls)
  unfolding erase_in
  erase_in-ErasesIn s p [] v a h = absurd h
  erase_in-ErasesIn s p (l ∷ ls) v a h = elim (Bool-cases (l.price ==ℤ p)) [
    | inl e ↦
        let r = erase_it-Erases l.queue a.0 (rw e at h) in
        rw (e, r.erased, erase_in)
          (record {
            left = keep_filled l.price r.left ls;
            erased = refl;
            sorted = keep_filled-IsBookSide s l.price r.left ls v.1 v.2;
            owned =
                All-keep_filled (λ m. Owned owner bound m.queue) l.price r.left ls
                  (λ n q w. subst (Owned owner bound) w r.owned) a.1;
            prices = λ P b. All-keep_filled (λ m. P m.price) l.price r.left ls (λ n q w. b.0) b.1;
            others = λ x k j ne g.
                At-keep_filled l.price x k j r.left ls (elim (Bool-cases (l.price ==ℤ x)) [
                  | inl f ↦ rw f (r.others k j ne (rw f at g))
                  | inr f ↦ rw f (rw f at g)
                ]);
          })
    | inr e ↦
        let r = erase_in-ErasesIn s p ls v.2 a.1 (rw e at h) in
        rw (e, r.erased, erase_in)
          (record {
            left = l ∷ r.left;
            erased = refl;
            sorted = (v.0, r.prices (λ q. comes_first s l.price q ≡ true) v.1, r.sorted);
            owned = (a.0, r.owned);
            prices = λ P b. (b.0, r.prices P b.1);
            others = λ x k j ne g. elim (Bool-cases (l.price ==ℤ x)) [
              | inl f ↦ rw f (rw f at g)
              | inr f ↦ rw f (r.others x k j ne (rw f at g))
            ];
          })
  ]

-- A cancellation of a valid book returns, says whether the id was indexed, and leaves a valid book in
-- which it is not.
pub record Cancels (b : OrderBook) (id : OrderId) (out : Option (OrderBook × Bool)) : Type 0 where
  pub after : OrderBook
  pub found : Bool
  pub returned : out ≡ some (after, found)
  pub valid : IsValidBook after
  pub missing : lookup id b.order_index ≡ none → (found ≡ false) × (after ≡ b)
  pub present : (loc : BookLocation) → lookup id b.order_index ≡ some loc → found ≡ true
  pub gone : lookup id after.order_index ≡ none

order_index-with_side :
    (s : Side) (ls : List PriceLevel) (b : OrderBook)
    → (with_side s ls b).order_index ≡ b.order_index
order_index-with_side buy ls b = refl
order_index-with_side sell ls b = refl

-- A cancellation of a valid simple book returns: of an id that is not in the index it says so and
-- changes nothing, and of another it says that, and leaves a valid book without the id in the
-- index.
pub cancel_book_order-Cancels :
    (b : OrderBook) (id : OrderId) → IsValidBook b → Cancels b id (cancel_book_order b id)
unfolding cancel_book_order
cancel_book_order-Cancels b id v = elim (Option-cases (lookup id b.order_index)) [
  | inl e ↦
      rw (e, cancel_book_order)
        (record {
          after = b;
          found = false;
          returned = refl;
          valid = v;
          missing = λ f. (refl, refl);
          present = λ loc f. let g = sym e ∙ f in absurd cc;
          gone = e;
        })
  | inr (loc, e) ↦
      let (sorted, owned) = v.sides loc.side in
      let r =
        erase_in-ErasesIn v.owner b.next_node loc.it id loc.side loc.price (side_of b loc.side)
          sorted owned (v.points id loc e) in
      rw (e, r.erased, cancel_book_order)
        (record {
          after = with_side loc.side r.left (record b { order_index = erase id b.order_index });
          found = true;
          returned = refl;
          valid =
              with_side-IsValidBook b loc.side r.left (erase id b.order_index) b.next_node v.owner
                (r.sorted, r.owned) v.sides
                (λ j l f.
                  let (g, f') = lookup-erase-some id j b.order_index l f in
                  let before = v.points j l f' in
                  elim (Side-cases loc.side l.side) [
                    | inr ne ↦ inr (ne, before)
                    | inl w ↦
                        let at_side = subst (λ s. At l.price l.it j (side_of b s)) (sym w) before in
                        inl (w, r.others l.price l.it j (λ i. ground (arith, g, i)) at_side)
                  ]);
          missing = λ f. let g = sym e ∙ f in absurd cc;
          present = λ l f. refl;
          gone =
              ap (lookup id) (order_index-with_side loc.side r.left _)
              ∙ lookup-erase id id b.order_index
              ∙ rw ((==_iff id id).1 refl) refl;
        })
]
