-- ===== src/L3Book/Edits.antt =====
-- The two edits of a side that are not matching: an order comes to rest, and a node is erased. Both
-- keep the side a sorted map of live orders.
use hft_sdk.Base.{
  ==ℤ_iff, All, All-append, Bool-cases, List, Option-cases, [], arith, eq_of_parts, false, inl, inr,
  none, refl, some, subst, true, u32_mod, ℕ, ◌%◌, ◌++◌, ◌+◌, ◌==ℤ◌, ◌∷◌, ◌≡◌, ◌≢◌,
}
use hft_sdk.Types.{OrderId, Price, Side, buy, sell}
use hft_sdk.L3Book.{L3Order, Levels}
use hft_sdk.L3Book.Levels.{
  before, find_level, push_level, set_level, erase_level, erase_node, renumber,
  update_queue_positions, refresh_level, erase_order,
}
use hft_sdk.L3Book.Sides.{IsResting, IsSide}

pub before_trans :
    (s : Side) (p q r : Price) → before s p q ≡ true → before s q r ≡ true → before s p r ≡ true
before_trans buy p q r h k = ground arith
before_trans sell p q r h k = ground arith

-- Prices of which neither comes first are the same key.
pub before_total : (s : Side) (p q : Price) → before s p q ≡ false → before s q p ≡ false → p ≡ q
before_total buy p q h k = eq_of_parts p q (ground arith)
before_total sell p q h k = eq_of_parts p q (ground arith)

All-before_trans :
    (s : Side) (p q : Price) (ls : Levels)
    → before s p q ≡ true
    → All (λ m. before s q m.price ≡ true) ls
    → All (λ m. before s p m.price ≡ true) ls
All-before_trans s p q [] h a = tt
All-before_trans s p q (l ∷ ls) h a =
    (before_trans s p q l.price h a.0, All-before_trans s p q ls h a.1)

moved-IsResting :
    (s : Side) (p : Price) (o : L3Order) (n : ℕ)
    → IsResting s p o
    → IsResting s p (record o { queue_pos = n })
moved-IsResting s p o n r = record {
  side_eq = r.side_eq;
  price_eq = r.price_eq;
  shown = r.shown;
  held_back = r.held_back;
  alive = r.alive;
}

pub snoc-ne-nil {ℓ} : {A : Type ℓ} (xs : List A) (x : A) → xs ++ x ∷ [] ≢ []
snoc-ne-nil [] x e = cc
snoc-ne-nil (y ∷ ys) x e = cc

-- An order that comes to rest.
module _ (s : Side) (p : Price) (o : L3Order) where
  pub push_level-prices :
      (P : Price → Type 0) (ls : Levels)
      → P p
      → All (λ l. P l.price) ls
      → All (λ l. P l.price) (push_level s p o ls)
  unfolding push_level
  push_level-prices P [] h a = (h, tt)
  push_level-prices P (l ∷ ls) h a = elim (Bool-cases (before s p l.price)) [
    | inl e ↦ rw e (h, a)
    | inr e ↦ rw e (elim (Bool-cases (before s l.price p)) [
      | inl f ↦ rw f (a.0, push_level-prices P ls h a.1)
      | inr f ↦ rw f a
    ])
  ]

  pub push_level-IsSide :
      (ls : Levels) → IsResting s p o → IsSide s ls → IsSide s (push_level s p o ls)
  unfolding push_level
  push_level-IsSide [] r i = (λ e. cc, (moved-IsResting s p o 0 r, tt), tt, tt)
  push_level-IsSide (l ∷ ls) r i = elim (Bool-cases (before s p l.price)) [
    | inl e ↦
        rw e
          (λ f. cc, (moved-IsResting s p o 0 r, tt), (e, All-before_trans s p l.price ls e i.2), i)
    | inr e ↦ rw e (elim (Bool-cases (before s l.price p)) [
      | inl f ↦ rw f (
        i.0,
        i.1,
        push_level-prices (λ q. before s l.price q ≡ true) ls f i.2,
        push_level-IsSide ls r i.3,
      )
      | inr f ↦ rw f (
        snoc-ne-nil l.queue _,
        All-append _ l.queue _ i.1
            (moved-IsResting s l.price o _ (rw (before_total s p l.price e f) at r), tt),
        i.2,
        i.3,
      )
    ])
  ]

-- A node that is erased.
erase_node-All :
    (P : L3Order → Type 0) (i : OrderId) (q : List L3Order) → All P q → All P (erase_node i q)
unfolding erase_node
erase_node-All P i [] a = tt
erase_node-All P i (o ∷ q) a = ground (arith, erase_node-All P i q a.1)

renumber-All :
    (s : Side) (p : Price) (n : ℕ) (q : List L3Order)
    → All (IsResting s p) q
    → All (IsResting s p) (renumber n q)
unfolding renumber
renumber-All s p n [] a = tt
renumber-All s p n (o ∷ q) a =
    (moved-IsResting s p o n a.0, renumber-All s p ((n + 1) % u32_mod) q a.1)

find_level-All :
    (s : Side) (p : Price) (ls : Levels) (q : List L3Order)
    → IsSide s ls
    → find_level p ls ≡ some q
    → All (IsResting s p) q
unfolding find_level
find_level-All s p [] q i = λ e. cc
find_level-All s p (l ∷ ls) q i = elim (Bool-cases (l.price ==ℤ p)) [
  | inl f ↦
      rw f (λ e. let same : l.queue ≡ q = cc in rw (← same) (rw (← (==ℤ_iff l.price p).0 f) i.1))
  | inr f ↦ rw f (find_level-All s p ls q i.3)
]

set_level-prices :
    (P : Price → Type 0) (p : Price) (q : List L3Order) (ls : Levels)
    → All (λ l. P l.price) ls
    → All (λ l. P l.price) (set_level p q ls)
unfolding set_level
set_level-prices P p q [] a = tt
set_level-prices P p q (l ∷ ls) a = ground (arith, set_level-prices P p q ls a.1)

erase_level-prices :
    (P : Price → Type 0) (p : Price) (ls : Levels)
    → All (λ l. P l.price) ls
    → All (λ l. P l.price) (erase_level p ls)
unfolding erase_level
erase_level-prices P p [] a = tt
erase_level-prices P p (l ∷ ls) a = ground (arith, erase_level-prices P p ls a.1)

set_level-IsSide :
    (s : Side) (p : Price) (q : List L3Order) (ls : Levels)
    → q ≢ []
    → All (IsResting s p) q
    → IsSide s ls
    → IsSide s (set_level p q ls)
unfolding set_level
set_level-IsSide s p q [] ne a i = tt
set_level-IsSide s p q (l ∷ ls) ne a i = elim (Bool-cases (l.price ==ℤ p)) [
  | inl f ↦ rw f (ne, rw ((==ℤ_iff _ _).0 f) a, i.2, i.3)
  | inr f ↦ rw f (
    i.0,
    i.1,
    set_level-prices (λ r. before s l.price r ≡ true) p q ls i.2,
    set_level-IsSide s p q ls ne a i.3,
  )
]

erase_level-IsSide :
    (s : Side) (p : Price) (ls : Levels) → IsSide s ls → IsSide s (erase_level p ls)
unfolding erase_level
erase_level-IsSide s p [] i = tt
erase_level-IsSide s p (l ∷ ls) i = elim (Bool-cases (l.price ==ℤ p)) [
  | inl f ↦ rw f i.3
  | inr f ↦ rw f (
    i.0,
    i.1,
    erase_level-prices (λ r. before s l.price r ≡ true) p ls i.2,
    erase_level-IsSide s p ls i.3,
  )
]

find_level-set_level :
    (p : Price) (q q' : List L3Order) (ls : Levels)
    → find_level p ls ≡ some q
    → find_level p (set_level p q' ls) ≡ some q'
unfolding find_level set_level
find_level-set_level p q q' [] e = cc
find_level-set_level p q q' (l ∷ ls) e = ground (arith, find_level-set_level p q q' ls)

set_level-set_level :
    (p : Price) (q q' : List L3Order) (ls : Levels)
    → set_level p q (set_level p q' ls) ≡ set_level p q ls
unfolding set_level
set_level-set_level p q q' [] = refl
set_level-set_level p q q' (l ∷ ls) = ground (arith, set_level-set_level p q q' ls)

-- The level after the erasure, in one write.
pub refresh_level-eq :
    (p : Price) (o : L3Order) (q q' : List L3Order) (ls : Levels)
    → find_level p ls ≡ some q'
    → refresh_level p (o ∷ q) ls ≡ set_level p (renumber 0 (o ∷ q)) ls
unfolding refresh_level update_queue_positions
refresh_level-eq p o q q' ls e =
    rw (find_level-set_level p q' (o ∷ q) ls e, update_queue_positions)
      (set_level-set_level p _ (o ∷ q) ls)

pub erase_order_cases :
    (P : Levels → Type 0) (p : Price) (i : OrderId) (ls : Levels)
    → (find_level p ls ≡ none → P ls)
    → ((q : List L3Order) → find_level p ls ≡ some q → erase_node i q ≡ [] → P (erase_level p ls))
    → ((q : List L3Order) (o : L3Order) (r : List L3Order)
        → find_level p ls ≡ some q
        → erase_node i q ≡ o ∷ r
        → P (set_level p (renumber 0 (o ∷ r)) ls))
    → P (erase_order p i ls)
unfolding erase_order
erase_order_cases P p i ls absent alone others = elim (Option-cases (find_level p ls)) [
  | inl e ↦ rw (e, erase_order) (absent e)
  | inr (q, e) ↦ rw (e, erase_order) (go (erase_node i q) q e refl)
]
  where
    go :
        (r q : List L3Order)
        → find_level p ls ≡ some q
        → erase_node i q ≡ r
        → P (refresh_level p r ls)
    go [] q e f = unfold refresh_level in alone q e f
    go (o ∷ r) q e f = rw (refresh_level-eq p o r q ls e) (others q o r e f)

-- Erasing an order keeps a side in shape.
pub erase_order-IsSide :
    (s : Side) (p : Price) (i : OrderId) (ls : Levels) → IsSide s ls → IsSide s (erase_order p i ls)
unfolding renumber
erase_order-IsSide s p i ls h =
    erase_order_cases (IsSide s) p i ls (λ e. h) (λ q e f. erase_level-IsSide s p ls h)
      (λ q o r e f.
        set_level-IsSide s p _ ls (λ g. cc)
          (renumber-All s p 0 (o ∷ r)
            (subst (All (IsResting s p)) f (erase_node-All _ i q (find_level-All s p ls q h e))))
          h)

pub erase_order-prices :
    (P : Price → Type 0) (p : Price) (i : OrderId) (ls : Levels)
    → All (λ l. P l.price) ls
    → All (λ l. P l.price) (erase_order p i ls)
erase_order-prices P p i ls h =
    erase_order_cases (λ m. All (λ l. P l.price) m) p i ls (λ e. h)
      (λ q e f. erase_level-prices P p ls h) (λ q o r e f. set_level-prices P p _ ls h)
