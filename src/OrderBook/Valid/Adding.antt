-- ===== src/OrderBook/Valid/Adding.antt =====
-- `addOrder` keeps the invariant of the simple book.
use hft_sdk.Base.{
  ==_iff, ==ℤ_iff, All, All-append, All-map, Bool-cases, List, [], ap, arith, false, if◌then◌else◌,
  inl, inr, insert, length, length-append, lookup-insert, refl, some-injective, subst, suc, sym,
  true, ℕ, ◌<◌, ◌==ℤ◌, ◌==◌, ◌∙◌, ◌∷◌, ◌≡◌,
}
use hft_sdk.Types.{OrderId, Price, Side, buy, sell}
use hft_sdk.OrderBook.{
  BookOrder, BookNode, PriceLevel, BookLocation, OrderBook, comes_first, push_order, side_of,
  add_book_order,
}
use hft_sdk.OrderBook.Valid.{
  IsBookSide, SideOwned, At, IsValidBook, Has-append_left, Has-append_last, At-first,
  comes_first_trans, comes_first_eq, with_side-IsValidBook, Side-cases, Placed,
}

module _ (s : Side) (p : Price) (n : BookNode) where
  push_order-All :
      (P : Price → Type 0) (ls : List PriceLevel)
      → P p
      → All (λ l. P l.price) ls
      → All (λ l. P l.price) (push_order s p n ls)
  unfolding push_order
  push_order-All P [] h a = (h, tt)
  push_order-All P (l ∷ ls) h a = elim (Bool-cases (comes_first s p l.price)) [
    | inl e ↦ rw e (h, a)
    | inr e ↦ elim (Bool-cases (comes_first s l.price p)) [
      | inl f ↦ rw (e, f) (a.0, push_order-All P ls h a.1)
      | inr f ↦ rw (e, f) a
    ]
  ]

  push_order-IsBookSide :
      (ls : List PriceLevel) → IsBookSide s ls → IsBookSide s (push_order s p n ls)
  unfolding push_order
  push_order-IsBookSide [] v = ((λ e. omega (arith, ap length e)), tt, tt)
  push_order-IsBookSide (l ∷ ls) v = elim (Bool-cases (comes_first s p l.price)) [
    | inl e ↦ rw e (
      (λ c. omega (arith, ap length c)),
      (e, All-map _ _ ls (λ m h. comes_first_trans s p l.price m.price e h) v.1),
      v,
    )
    | inr e ↦ elim (Bool-cases (comes_first s l.price p)) [
      | inl f ↦
          rw (e, f)
            (
              v.0,
              push_order-All (λ q. comes_first s l.price q ≡ true) ls f v.1,
              push_order-IsBookSide ls v.2,
            )
      | inr f ↦
          rw (e, f) ((λ c. omega (arith, ap length c, length-append l.queue (n ∷ []))), v.1, v.2)
    ]
  ]

  push_order-SideOwned :
      (owner : ℕ → OrderId) (bound : ℕ) (ls : List PriceLevel)
      → owner n.node ≡ n.order.id
      → n.node < bound
      → SideOwned owner bound ls
      → SideOwned owner bound (push_order s p n ls)
  unfolding push_order
  push_order-SideOwned owner bound [] o h a = (((o, h), tt), tt)
  push_order-SideOwned owner bound (l ∷ ls) o h a = elim (Bool-cases (comes_first s p l.price)) [
    | inl e ↦ rw e (((o, h), tt), a)
    | inr e ↦ elim (Bool-cases (comes_first s l.price p)) [
      | inl f ↦ rw (e, f) (a.0, push_order-SideOwned owner bound ls o h a.1)
      | inr f ↦ rw (e, f) (All-append _ l.queue (n ∷ []) a.0 ((o, h), tt), a.1)
    ]
  ]

  push_order-At_new : (ls : List PriceLevel) → At p n.node n.order.id (push_order s p n ls)
  unfolding push_order
  push_order-At_new [] = let e = (==ℤ_iff p p).1 refl in rw e (inl (refl, refl))
  push_order-At_new (l ∷ ls) =
      let here = (==ℤ_iff p p).1 refl in
      elim (Bool-cases (comes_first s p l.price)) [
        | inl e ↦ rw (e, here) (inl (refl, refl))
        | inr e ↦ elim (Bool-cases (comes_first s l.price p)) [
          | inl f ↦ let ne = later s l.price p f in rw (e, f, ne) (push_order-At_new ls)
          | inr f ↦
              let eq = (==ℤ_iff l.price p).1 (comes_first_eq s p l.price e f) in
              rw (e, f, eq) (Has-append_last n l.queue)
        ]
      ]
    where
      later : (s : Side) (q r : Price) → comes_first s q r ≡ true → (q ==ℤ r) ≡ false
      later buy q r h = ground arith
      later sell q r h = ground arith

  push_order-At :
      (r : Price) (it : ℕ) (id : OrderId) (ls : List PriceLevel)
      → IsBookSide s ls
      → At r it id ls
      → At r it id (push_order s p n ls)
  unfolding push_order
  push_order-At r it id [] v h = absurd h
  push_order-At r it id (l ∷ ls) v h = elim (Bool-cases (comes_first s p l.price)) [
    | inl e ↦ rw e (elim (Bool-cases (p ==ℤ r)) [
      | inr f ↦ rw f h
      | inl f ↦
          let same = (==ℤ_iff p r).0 f in
          let all = All-map _ _ ls (λ m k. comes_first_trans s p l.price m.price e k) v.1 in
          absurd
            (At-first s p it id (l ∷ ls) (e, all) (subst (λ x. At x it id (l ∷ ls)) (sym same) h))
    ])
    | inr e ↦ elim (Bool-cases (comes_first s l.price p)) [
      | inl f ↦ elim (Bool-cases (l.price ==ℤ r)) [
        | inl g ↦ rw (e, f, g) (rw g at h)
        | inr g ↦ rw (e, f, g) (push_order-At r it id ls v.2 (rw g at h))
      ]
      | inr f ↦ elim (Bool-cases (l.price ==ℤ r)) [
        | inl g ↦ rw (e, f, g) (Has-append_left it id l.queue (n ∷ []) (rw g at h))
        | inr g ↦ rw (e, f, g) (rw g at h)
      ]
    ]
  ]

-- The number of the new node tells the id of the new order.
abbrev owner_after : (ℕ → OrderId) → ℕ → OrderId → ℕ → OrderId
owner_after owner fresh id k = if k == fresh then id else owner k

Owned-owner_after :
    (owner : ℕ → OrderId) (fresh : ℕ) (id : OrderId) (ls : List PriceLevel)
    → SideOwned owner fresh ls
    → SideOwned (owner_after owner fresh id) (suc fresh) ls
Owned-owner_after owner fresh id ls a =
    All-map _ _ ls
      (λ l. All-map _ _ l.queue (λ n h.
        let other : (n.node == fresh) ≡ false = ground (arith, h.1) in
        (rw other h.0, omega (arith, h.1))))
      a

pub add_book_order-IsValidBook :
    (b : OrderBook) (o : BookOrder) → IsValidBook b → IsValidBook (add_book_order b o)
unfolding add_book_order
add_book_order-IsValidBook b o v =
    let n : BookNode = record { node = b.next_node; order = o } in
    let loc : BookLocation = record { side = o.side; price = o.price; it = b.next_node } in
    let owner = owner_after v.owner b.next_node o.id in
    let ls = side_of b o.side in
    let (sorted, owned) = v.sides o.side in
    let mine : owner b.next_node ≡ o.id =
      let e = (==_iff b.next_node b.next_node).1 refl in rw e refl in
    with_side-IsValidBook b o.side (push_order o.side o.price n ls) (insert o.id loc b.order_index)
      (suc b.next_node) owner
      (
        push_order-IsBookSide o.side o.price n ls sorted,
        push_order-SideOwned o.side o.price n owner (suc b.next_node) ls mine (omega arith)
            (Owned-owner_after v.owner b.next_node o.id ls owned),
      )
      (λ s. let (w, u) = v.sides s in (w, Owned-owner_after v.owner b.next_node o.id _ u))
      (λ id there e. elim (Bool-cases (o.id == id)) [
        | inl f ↦
            let same : loc ≡ there =
              some-injective _ _ (sym (lookup-insert o.id id loc b.order_index ∙ rw f refl) ∙ e) in
            let mine : o.id ≡ id = (==_iff o.id id).0 f in
            subst (λ x. Placed o.side (push_order o.side o.price n ls) b id x) same
              (inl (
                refl,
                subst (λ i. At o.price b.next_node i (push_order o.side o.price n ls)) mine
                    (push_order-At_new o.side o.price n ls),
              ))
        | inr f ↦
            let before =
              v.points id there (sym (lookup-insert o.id id loc b.order_index ∙ rw f refl) ∙ e) in
            elim (Side-cases o.side there.side) [
              | inl w ↦
                  let at_side =
                    subst (λ s. At there.price there.it id (side_of b s)) (sym w) before in
                  inl (w, push_order-At o.side o.price n there.price there.it id ls sorted at_side)
              | inr ne ↦ inr (ne, before)
            ]
      ])
