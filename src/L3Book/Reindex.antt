-- ===== src/L3Book/Reindex.antt =====
-- Where the orders stand after one comes to rest and after one is erased.
use hft_sdk.Base.{
  ==ℤ_iff, All, Bool-cases, List, [], arith, false, if◌then◌else◌, inl, inr, length, ltb, refl,
  some, some-injective, subst, suc, sym, true, u32_mod, ℕ, ◌%◌, ◌++◌, ◌+◌, ◌<◌, ◌==ℤ◌, ◌==◌, ◌∙◌,
  ◌∷◌, ◌≡◌, ◌≢◌,
}
use hft_sdk.Types.{OrderId, Price, Side, buy, sell}
use hft_sdk.L3Book.{L3Order, Levels, Location}
use hft_sdk.L3Book.Levels.{
  before, find_level, push_level, set_level, erase_level, find_node, erase_node, renumber,
  erase_order,
}
use hft_sdk.L3Book.Sides.{IsSide}
use hft_sdk.L3Book.Edits.{before_total, erase_order_cases}
use hft_sdk.L3Book.Locate.{in_queue, occurs, locate, locate-none}
use hft_sdk.L3Book.Counts.{size}

in_queue-snoc :
    (i : OrderId) (q : List L3Order) (o : L3Order)
    → in_queue i (q ++ o ∷ []) ≡ in_queue i q + (if o.id == i then 1 else 0)
unfolding in_queue
in_queue-snoc i [] o = omega arith
in_queue-snoc i (x ∷ q) o = omega (arith, in_queue-snoc i q o)

module _ (s : Side) (p : Price) (o : L3Order) (i : OrderId) where
  pub occurs-push_level :
      (ls : Levels) → occurs i (push_level s p o ls) ≡ occurs i ls + (if o.id == i then 1 else 0)
  unfolding push_level occurs in_queue
  occurs-push_level [] = omega arith
  occurs-push_level (l ∷ ls) = elim (Bool-cases (before s p l.price)) [
    | inl e ↦ rw e (omega arith)
    | inr e ↦ rw e (elim (Bool-cases (before s l.price p)) [
      | inl f ↦ rw f (omega (arith, occurs-push_level ls))
      | inr f ↦ rw f (rw (in_queue-snoc i l.queue) (omega arith))
    ])
  ]

  -- An id that was nowhere is found where it was put; the others stay.
  pub locate-push_level :
      (ls : Levels)
      → (o.id ≡ i → occurs i ls ≡ 0)
      → locate s i (push_level s p o ls)
        ≡ (if o.id == i then some (record { side = s; price = p; node = i }) else locate s i ls)
  unfolding push_level occurs locate in_queue
  locate-push_level [] h = ground arith
  locate-push_level (l ∷ ls) h = elim (Bool-cases (before s p l.price)) [
    | inl e ↦ rw e (ground arith)
    | inr e ↦ rw e (elim (Bool-cases (before s l.price p)) [
      | inl f ↦ rw f (ground (arith, locate-push_level ls))
      | inr f ↦ rw f (
          rw (in_queue-snoc i l.queue)
            (ground (arith, before_total s p l.price e f, locate-none s i ls)))
    ])
  ]

in_queue-renumber :
    (i : OrderId) (n : ℕ) (q : List L3Order) → in_queue i (renumber n q) ≡ in_queue i q
unfolding renumber in_queue
in_queue-renumber i n [] = refl
in_queue-renumber i n (o ∷ q) = omega (arith, in_queue-renumber i ((n + 1) % u32_mod) q)

length-renumber : (n : ℕ) (q : List L3Order) → length (renumber n q) ≡ length q
unfolding renumber
length-renumber n [] = refl
length-renumber n (o ∷ q) = omega (arith, length-renumber ((n + 1) % u32_mod) q)

-- The erasure takes one occurrence of the node, if there is one.
in_queue-erase_node :
    (i j : OrderId) (q : List L3Order)
    → 0 < in_queue i q
    → in_queue j (erase_node i q) + (if i == j then 1 else 0) ≡ in_queue j q
unfolding erase_node in_queue
in_queue-erase_node i j [] h = absurd (omega arith)
in_queue-erase_node i j (o ∷ q) h = ground (arith, in_queue-erase_node i j q)

length-erase_node :
    (i : OrderId) (q : List L3Order) → 0 < in_queue i q → suc (length (erase_node i q)) ≡ length q
unfolding erase_node in_queue
length-erase_node i [] h = absurd (omega arith)
length-erase_node i (o ∷ q) h = ground (arith, length-erase_node i q)

pub find_node-some :
    (i : OrderId) (q : List L3Order)
    → 0 < in_queue i q
    → (o : L3Order) × (find_node i q ≡ some o) × (o.id ≡ i)
unfolding find_node in_queue
find_node-some i [] h = absurd (omega arith)
find_node-some i (o ∷ q) h = elim (Bool-cases (o.id == i)) [
  | inl e ↦ (o, rw e refl, ground arith)
  | inr e ↦ let (x, f, g) = find_node-some i q (ground arith) in (x, rw e f, g)
]

-- A location leads to its level: the id is in the first queue at its price.
pub record Found (s : Side) (i : OrderId) (ls : Levels) (loc : Location) : Type 0 where
  pub side_eq : loc.side ≡ s
  pub node_eq : loc.node ≡ i
  pub queue : List L3Order
  pub at_level : find_level loc.price ls ≡ some queue
  pub holds : 0 < in_queue i queue

locate-price :
    (P : Price → Type 0) (s : Side) (i : OrderId) (ls : Levels) (loc : Location)
    → All (λ l. P l.price) ls
    → locate s i ls ≡ some loc
    → P loc.price
unfolding locate
locate-price P s i [] loc a e = cc
locate-price P s i (l ∷ ls) loc a e = ground (arith, locate-price P s i ls loc a.1)

before_irrefl : (s : Side) (p q : Price) → before s p q ≡ true → (p ==ℤ q) ≡ false
before_irrefl buy p q h = ground arith
before_irrefl sell p q h = ground arith

pub locate-Found :
    (s : Side) (i : OrderId) (ls : Levels) (loc : Location)
    → IsSide s ls
    → locate s i ls ≡ some loc
    → Found s i ls loc
unfolding locate find_level
locate-Found s i [] loc h = λ e. cc
locate-Found s i (l ∷ ls) loc h = elim (Bool-cases (ltb 0 (in_queue i l.queue))) [
  | inl f ↦ rw f (λ e. subst (Found s i (l ∷ ls)) (some-injective _ _ e) (record {
    side_eq = refl;
    node_eq = refl;
    queue = l.queue;
    at_level = rw ((==ℤ_iff l.price l.price).1 refl) refl;
    holds = ground arith;
  }))
  | inr f ↦ rw f (λ e.
      let g = locate-Found s i ls loc h.3 e in
      let b = locate-price (λ p. before s l.price p ≡ true) s i ls loc h.2 e in
      record {
        side_eq = g.side_eq;
        node_eq = g.node_eq;
        queue = g.queue;
        at_level = rw (before_irrefl s l.price loc.price b) g.at_level;
        holds = g.holds;
      })
]

-- The counts of an id after a queue is written, and after its level is erased.
occurs-set_level :
    (j : OrderId) (p : Price) (q q' : List L3Order) (ls : Levels)
    → find_level p ls ≡ some q
    → occurs j (set_level p q' ls) + in_queue j q ≡ occurs j ls + in_queue j q'
unfolding find_level set_level occurs
occurs-set_level j p q q' [] e = cc
occurs-set_level j p q q' (l ∷ ls) e = ground (arith, occurs-set_level j p q q' ls)

occurs-erase_level :
    (j : OrderId) (p : Price) (q : List L3Order) (ls : Levels)
    → find_level p ls ≡ some q
    → occurs j (erase_level p ls) + in_queue j q ≡ occurs j ls
unfolding find_level erase_level occurs
occurs-erase_level j p q [] e = cc
occurs-erase_level j p q (l ∷ ls) e = ground (arith, occurs-erase_level j p q ls)

size-set_level :
    (p : Price) (q q' : List L3Order) (ls : Levels)
    → find_level p ls ≡ some q
    → size (set_level p q' ls) + length q ≡ size ls + length q'
unfolding find_level set_level size
size-set_level p q q' [] e = cc
size-set_level p q q' (l ∷ ls) e = ground (arith, size-set_level p q q' ls)

size-erase_level :
    (p : Price) (q : List L3Order) (ls : Levels)
    → find_level p ls ≡ some q
    → size (erase_level p ls) + length q ≡ size ls
unfolding find_level erase_level size
size-erase_level p q [] e = cc
size-erase_level p q (l ∷ ls) e = ground (arith, size-erase_level p q ls)

locate-set_level :
    (s : Side) (j : OrderId) (p : Price) (q q' : List L3Order) (ls : Levels)
    → find_level p ls ≡ some q
    → in_queue j q' ≡ in_queue j q
    → locate s j (set_level p q' ls) ≡ locate s j ls
unfolding find_level set_level locate
locate-set_level s j p q q' [] e h = cc
locate-set_level s j p q q' (l ∷ ls) e h = ground (arith, locate-set_level s j p q q' ls)

locate-erase_level :
    (s : Side) (j : OrderId) (p : Price) (q : List L3Order) (ls : Levels)
    → find_level p ls ≡ some q
    → in_queue j q ≡ 0
    → locate s j (erase_level p ls) ≡ locate s j ls
unfolding find_level erase_level locate
locate-erase_level s j p q [] e h = cc
locate-erase_level s j p q (l ∷ ls) e h = ground (arith, locate-erase_level s j p q ls)

-- What the erasure of the order `i` at its location does to the order `j`, and to the size.
pub record Erased (s : Side) (i j : OrderId) (ls ls' : Levels) : Type 0 where
  pub occurs_less : occurs j ls' + (if i == j then 1 else 0) ≡ occurs j ls
  pub same_place : i ≢ j → locate s j ls' ≡ locate s j ls
  pub size_less : suc (size ls') ≡ size ls

module _ (s : Side) (i j : OrderId) (p : Price) (q : List L3Order) (ls : Levels)
    (at : find_level p ls ≡ some q) (has : 0 < in_queue i q) where
  has_node : (r : List L3Order) → find_level p ls ≡ some r → 0 < in_queue i r
  has_node r e = subst (λ x. 0 < in_queue i x) (some-injective _ _ (sym at ∙ e)) has

  taken_alone :
      (r : List L3Order)
      → find_level p ls ≡ some r
      → erase_node i r ≡ []
      → Erased s i j ls (erase_level p ls)
  unfolding in_queue
  taken_alone r e f =
      let h = has_node r e in
      let n = rw f at (in_queue-erase_node i j r h) in
      let m = rw f at (length-erase_node i r h) in
      record {
        occurs_less = omega (arith, occurs-erase_level j p r ls e);
        same_place = λ ne. locate-erase_level s j p r ls e (ground arith);
        size_less = omega (arith, size-erase_level p r ls e);
      }

  taken_others :
      (r : List L3Order) (o : L3Order) (t : List L3Order)
      → find_level p ls ≡ some r
      → erase_node i r ≡ o ∷ t
      → Erased s i j ls (set_level p (renumber 0 (o ∷ t)) ls)
  taken_others r o t e f =
      let h = has_node r e in
      let n = rw f at (in_queue-erase_node i j r h) in
      let m = rw f at (length-erase_node i r h) in
      let k = in_queue-renumber j 0 (o ∷ t) in
      record {
        occurs_less = omega (arith, occurs-set_level j p r (renumber 0 (o ∷ t)) ls e);
        same_place = λ ne. locate-set_level s j p r (renumber 0 (o ∷ t)) ls e (ground arith);
        size_less =
            omega (arith, size-set_level p r (renumber 0 (o ∷ t)) ls e, length-renumber 0 (o ∷ t));
      }

  pub erase_order-Erased : Erased s i j ls (erase_order p i ls)
  erase_order-Erased = erase_order_cases (Erased s i j ls) p i ls (λ e. cc) taken_alone taken_others
