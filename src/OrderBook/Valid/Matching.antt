-- ===== src/OrderBook/Valid/Matching.antt =====
-- `matchIncoming` keeps the invariant of the simple book.
use hft_sdk.Base.{
  ==_iff, All, Bool-cases, List, [], false, inl, inr, lookup, lookup-erase-some, ltb_ℤ, min_ℤ, not,
  pos, some, subst, sym, true, ℕ, ◌&&◌, ◌-ℤ◌, ◌==ℤ◌, ◌==◌, ◌∷◌, ◌≡◌,
}
use hft_sdk.Types.{OrderId, Price, Side, Symbol, Timestamp}
use hft_sdk.OrderBook.{
  BookOrder, BookNode, PriceLevel, BookLocation, OrderBook, Filling, comes_first, fill_one,
  fill_queue, fill_side, is_beyond, side_of, match_book_order, resting_side,
}
use hft_sdk.OrderBook.Valid.{
  IsBookSide, Owned, SideOwned, Has, At, IsValidBook, At-keep_filled, keep_filled-IsBookSide,
  All-keep_filled, with_side-IsValidBook, Side-cases,
}

module _ (symbol : Symbol) (incoming : BookOrder) (ts : Timestamp) (owner : ℕ → OrderId)
    (bound : ℕ) where
  -- What a walk keeps of the index from `f` to `g`: an entry that is left was there before, and what
  -- its order had, it has.
  abbrev Keeps : Filling → Filling → (ℕ → OrderId → Type 0) → (ℕ → OrderId → Type 0) → Type 0
  Keeps f g had has =
      (j : OrderId) (loc : BookLocation)
      → lookup j g.order_index ≡ some loc
      → (lookup j f.order_index ≡ some loc) × ((k : ℕ) → had k j → has k j)

  fill_one-index :
      (p : Price) (o : BookOrder) (f : Filling) (j : OrderId) (loc : BookLocation)
      → lookup j (fill_one symbol incoming ts p o f).order_index ≡ some loc
      → lookup j f.order_index ≡ some loc
  unfolding fill_one
  fill_one-index p o f j loc = elim (Bool-cases ((o.qty -ℤ min_ℤ f.remaining o.qty) ==ℤ pos 0)) [
    | inl e ↦ rw e (λ h. (lookup-erase-some o.id j f.order_index loc h).1)
    | inr e ↦ rw e (λ h. h)
  ]

  fill_one-used :
      (p : Price) (o : BookOrder) (f : Filling) (j : OrderId) (loc : BookLocation)
      → ((o.qty -ℤ min_ℤ f.remaining o.qty) ==ℤ pos 0) ≡ true
      → lookup j (fill_one symbol incoming ts p o f).order_index ≡ some loc
      → (o.id == j) ≡ false
  unfolding fill_one
  fill_one-used p o f j loc e = rw e (λ h. (lookup-erase-some o.id j f.order_index loc h).0)

  record FillsQueue (q : List BookNode) (f : Filling) (out : List BookNode × Filling) : Type 0 where
    owned : Owned owner bound out.0
    keeps : Keeps f out.1 (λ k j. Has k j q) (λ k j. Has k j out.0)

  fill_queue-FillsQueue :
      (p : Price) (q : List BookNode) (f : Filling)
      → Owned owner bound q
      → FillsQueue q f (fill_queue symbol incoming ts p q f)
  unfolding fill_queue
  fill_queue-FillsQueue p [] f a = record { owned = tt; keeps = λ j loc h. (h, λ k g. g) }
  fill_queue-FillsQueue p (n ∷ q) f a = elim (Bool-cases (ltb_ℤ (pos 0) f.remaining)) [
    | inr e ↦ rw e (record { owned = a; keeps = λ j loc h. (h, λ k g. g) })
    | inl e ↦ elim (Bool-cases ((n.order.qty -ℤ min_ℤ f.remaining n.order.qty) ==ℤ pos 0)) [
      | inl z ↦
          let r = fill_queue-FillsQueue p q (fill_one symbol incoming ts p n.order f) a.1 in
          rw (e, z)
            (record {
              owned = r.owned;
              keeps = λ j loc h.
                  let (h', stays) = r.keeps j loc h in
                  let other = fill_one-used p n.order f j loc z h' in
                  (fill_one-index p n.order f j loc h', λ k g. stays k (deeper j k other g));
            })
      | inr z ↦
          rw (e, z)
            (record {
              owned = a;
              keeps = λ j loc h. (fill_one-index p n.order f j loc h, λ k g. g);
            })
    ]
  ]
    where
      deeper : (j : OrderId) (k : ℕ) → (n.order.id == j) ≡ false → Has k j (n ∷ q) → Has k j q
      deeper j k other (inl g) = let w = (==_iff n.order.id j).1 g.1 in absurd cc
      deeper j k other (inr g) = g

  record FillsSide (s : Side) (ls : List PriceLevel) (f : Filling) (out : List PriceLevel × Filling)
      : Type 1 where
    sorted : IsBookSide s out.0
    owned : SideOwned owner bound out.0
    prices : (P : Price → Type 0) → All (λ l. P l.price) ls → All (λ l. P l.price) out.0
    keeps : (r : Price) → Keeps f out.1 (λ k j. At r k j ls) (λ k j. At r k j out.0)

  fill_side-FillsSide :
      (s : Side) (ls : List PriceLevel) (f : Filling)
      → IsBookSide s ls
      → SideOwned owner bound ls
      → FillsSide s ls f (fill_side symbol incoming ts ls f)
  unfolding fill_side
  fill_side-FillsSide s [] f v a = record {
    sorted = tt;
    owned = tt;
    prices = λ P b. tt;
    keeps = λ r j loc h. (h, λ k g. g);
  }
  fill_side-FillsSide s (l ∷ ls) f v a =
      elim (Bool-cases (ltb_ℤ (pos 0) f.remaining && not (is_beyond incoming l.price))) [
        | inr e ↦ rw e (record {
          sorted = v;
          owned = a;
          prices = λ P b. b;
          keeps = λ r j loc h. (h, λ k g. g);
        })
        | inl e ↦
            let inner = fill_queue-FillsQueue l.price l.queue f a.0 in
            let (q', f') = fill_queue symbol incoming ts l.price l.queue f in
            let outer = fill_side-FillsSide s ls f' v.2 a.1 in
            let ls' = (fill_side symbol incoming ts ls f').0 in
            rw e (record {
              sorted =
                  keep_filled-IsBookSide s l.price q' ls'
                    (outer.prices (λ p. comes_first s l.price p ≡ true) v.1) outer.sorted;
              owned =
                  All-keep_filled (λ m. Owned owner bound m.queue) l.price q' ls'
                    (λ n q w. subst (Owned owner bound) w inner.owned) outer.owned;
              prices = λ P b.
                  All-keep_filled (λ m. P m.price) l.price q' ls' (λ n q w. b.0)
                    (outer.prices P b.1);
              keeps = λ r j loc h.
                  let (h', moved) = outer.keeps r j loc h in
                  let (h'', stays) = inner.keeps j loc h' in
                  (
                    h'',
                    λ k g. At-keep_filled l.price r k j q' ls' (elim (Bool-cases (l.price ==ℤ r)) [
                      | inl w ↦ rw w (stays k (rw w at g))
                      | inr w ↦ rw w (moved k (rw w at g))
                    ]),
                  );
            })
      ]

pub match_book_order-IsValidBook :
    (b : OrderBook) (o : BookOrder) (ts : Timestamp)
    → IsValidBook b
    → IsValidBook (match_book_order b o ts).0
unfolding match_book_order
match_book_order-IsValidBook b o ts v =
    let s = resting_side o.side in
    let begun : Filling = record { order_index = b.order_index; trades = []; remaining = o.qty } in
    let (sorted, owned) = v.sides s in
    let r =
      fill_side-FillsSide b.symbol o ts v.owner b.next_node s (side_of b s) begun sorted owned in
    let (ls, f) = fill_side b.symbol o ts (side_of b s) begun in
    with_side-IsValidBook b s ls f.order_index b.next_node v.owner (r.sorted, r.owned) v.sides
      (λ j loc h.
        let (h', moved) = r.keeps loc.price j loc h in
        let before = v.points j loc h' in
        elim (Side-cases s loc.side) [
          | inr ne ↦ inr (ne, before)
          | inl w ↦
              inl
                (w, moved loc.it (subst (λ t. At loc.price loc.it j (side_of b t)) (sym w) before))
        ])
