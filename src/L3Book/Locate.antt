-- ===== src/L3Book/Locate.antt =====
-- Where an order stands, read off the levels: how often an id occurs and at which location. It is
-- what `order_index_` caches.
use hft_sdk.Base.{
  Bool-cases, List, Option, [], arith, erase, if◌then◌else◌, inl, inr, lookup, lookup-erase, ltb,
  ltb_ℤ, none, not, pos, refl, some, subst, ℕ, ◌&&◌, ◌+◌, ◌==◌, ◌∷◌, ◌≡◌, ◌≤◌,
}
use hft_sdk.Types.{Order, OrderId, Price, Side, Symbol, Timestamp}
use hft_sdk.L3Book.{L3Order, Levels, Location, Ledger, Progress}
use hft_sdk.L3Book.Match.{
  breaks_at, is_done, drop_done, resting_after, match_one, record_trade, match_queue, match_against,
  keep_node, keep_level,
}
use hft_sdk.L3Book.Sides.{resting_after_same}

-- How often the id occurs in a queue, and on a side.
unfoldable pub in_queue : OrderId → List L3Order → ℕ
in_queue i [] = 0
in_queue i (o ∷ q) = (if o.id == i then 1 else 0) + in_queue i q

unfoldable pub occurs : OrderId → Levels → ℕ
occurs i [] = 0
occurs i (l ∷ ls) = in_queue i l.queue + occurs i ls

-- The location of the first level that has the id.
unfoldable pub locate : Side → OrderId → Levels → Option Location
locate s i [] = none
locate s i (l ∷ ls) =
    if ltb 0 (in_queue i l.queue)
    then some (record { side = s; price = l.price; node = i })
    else locate s i ls

pub locate-none : (s : Side) (i : OrderId) (ls : Levels) → occurs i ls ≡ 0 → locate s i ls ≡ none
unfolding occurs locate
locate-none s i [] h = refl
locate-none s i (l ∷ ls) h = ground (arith, locate-none s i ls)

-- An index entry `x` of an id that occurs `n` times survives exactly when the occurrences do.
pub record Tracks (n : ℕ) (x : Option Location) (n' : ℕ) (x' : Option Location) : Type 0 where
  pub fewer : n' ≤ n
  pub entry : x' ≡ (if n' == n then x else none)

Tracks-refl : (n : ℕ) (x : Option Location) → Tracks n x n x
Tracks-refl n x = ground arith

Tracks-trans :
    {a b c : ℕ} {x y z : Option Location} → Tracks a x b y → Tracks b y c z → Tracks a x c z
Tracks-trans s t = ground arith

Tracks-frame :
    (r : ℕ) {a b : ℕ} {x y : Option Location} → Tracks a x b y → Tracks (a + r) x (b + r) y
Tracks-frame r t = ground arith

Tracks-frame_left :
    (r : ℕ) {a b : ℕ} {x y : Option Location} → Tracks a x b y → Tracks (r + a) x (r + b) y
Tracks-frame_left r t = ground arith

in_queue-keep_node :
    (i : OrderId) (o : L3Order) (q : List L3Order)
    → in_queue i (keep_node o q)
      ≡ (if is_done o then 0 else if o.id == i then 1 else 0) + in_queue i q
unfolding in_queue
in_queue-keep_node i o q = elim (Bool-cases (is_done o)) [
  | inl e ↦ rw e (omega arith)
  | inr e ↦ rw e refl
]

occurs-keep_level :
    (i : OrderId) (p : Price) (q : List L3Order) (ls : Levels)
    → occurs i (keep_level p q ls) ≡ in_queue i q + occurs i ls
unfolding occurs in_queue
occurs-keep_level i p [] ls = omega arith
occurs-keep_level i p (o ∷ q) ls = refl

order_index-drop_done :
    (o : L3Order) (g : Ledger)
    → (drop_done o g).order_index ≡ (if is_done o then erase o.id g.order_index else g.order_index)
unfolding drop_done
order_index-drop_done o g = ground arith

-- One occurrence of a resting order's id.
abbrev one_if : OrderId → OrderId → ℕ
one_if j i = if j == i then 1 else 0

drop_done-Tracks :
    (i : OrderId) (o : L3Order) (g : Ledger)
    → Tracks
        (one_if o.id i)
        (lookup i g.order_index)
        (if is_done o then 0 else one_if o.id i)
        (lookup i (drop_done o g).order_index)
drop_done-Tracks i o g = rw (order_index-drop_done o g) (elim (Bool-cases (is_done o)) [
  | inl e ↦ rw (e, lookup-erase o.id i g.order_index) (ground arith)
  | inr e ↦ rw e (Tracks-refl _ _)
])

module _ (symbol : Symbol) (incoming : Order) (ts : Timestamp) (i : OrderId) where
  match_one-Tracks :
      (p : Price) (o : L3Order) (s : Progress)
      → Tracks
          (one_if o.id i)
          (lookup i s.order_index)
          (if is_done (resting_after o s) then 0 else one_if (resting_after o s).id i)
          (lookup i (match_one symbol incoming ts p o s).order_index)
  unfolding match_one record_trade
  match_one-Tracks p o s =
      subst
        (λ j.
          Tracks (one_if j i) (lookup i s.order_index)
            (if is_done (resting_after o s) then 0 else one_if (resting_after o s).id i)
            (lookup i (match_one symbol incoming ts p o s).order_index))
        (resting_after_same o s).0
        (drop_done-Tracks i (resting_after o s) (record_trade symbol incoming ts p o s).ledger)

  match_queue-Tracks :
      (p : Price) (q : List L3Order) (s : Progress)
      → let (q', s') = match_queue symbol incoming ts p q s in
        Tracks (in_queue i q) (lookup i s.order_index) (in_queue i q') (lookup i s'.order_index)
  unfolding match_queue in_queue
  match_queue-Tracks p [] s = Tracks-refl _ _
  match_queue-Tracks p (o ∷ q) s = elim (Bool-cases (ltb_ℤ (pos 0) s.remaining)) [
    | inr e ↦ rw e (Tracks-refl _ _)
    | inl e ↦
        rw (e, in_queue-keep_node)
          (Tracks-trans (Tracks-frame (in_queue i q) (match_one-Tracks p o s))
            (Tracks-frame_left _ (match_queue-Tracks p q _)))
  ]

  pub match_against-Tracks :
      (ls : Levels) (s : Progress)
      → let (ls', s') = match_against symbol incoming ts ls s in
        Tracks (occurs i ls) (lookup i s.order_index) (occurs i ls') (lookup i s'.order_index)
  unfolding match_against occurs
  match_against-Tracks [] s = Tracks-refl _ _
  match_against-Tracks (l ∷ ls) s =
      elim (Bool-cases (ltb_ℤ (pos 0) s.remaining && not (breaks_at incoming l.price))) [
        | inr e ↦ rw e (Tracks-refl _ _)
        | inl e ↦
            rw (e, occurs-keep_level)
              (Tracks-trans (Tracks-frame (occurs i ls) (match_queue-Tracks l.price l.queue s))
                (Tracks-frame_left _ (match_against-Tracks ls _)))
      ]

  locate-keep_level :
      (d : Side) (p : Price) (q : List L3Order) (ls : Levels)
      → locate d i (keep_level p q ls) ≡ (
          if ltb 0 (in_queue i q)
          then some (record { side = d; price = p; node = i })
          else locate d i ls)
  unfolding locate in_queue
  locate-keep_level d p [] ls = refl
  locate-keep_level d p (o ∷ q) ls = refl

  -- An order that is still there stands where it stood.
  pub match_against-locate :
      (d : Side) (ls : Levels) (s : Progress)
      → occurs i ls ≤ 1
      → let ls' = (match_against symbol incoming ts ls s).0 in
        locate d i ls' ≡ (if occurs i ls' == 0 then none else locate d i ls)
  unfolding match_against occurs locate
  match_against-locate d [] s h = ground arith
  match_against-locate d (l ∷ ls) s h =
      elim (Bool-cases (ltb_ℤ (pos 0) s.remaining && not (breaks_at incoming l.price))) [
        | inr e ↦ rw e (ground (arith, locate-none d i (l ∷ ls)))
        | inl e ↦
            rw (e, locate-keep_level, occurs-keep_level)
              (ground (
                arith,
                match_queue-Tracks l.price l.queue s,
                match_against-Tracks ls (match_queue symbol incoming ts l.price l.queue s).1,
                match_against-locate d ls (match_queue symbol incoming ts l.price l.queue s).1,
              ))
      ]
