-- ===== src/L3Book/Sides.antt =====
-- One side of the book as a sorted map of queues: what its levels and their orders satisfy, and that
-- matching, resting and erasing keep it.
use hft_sdk.Base.{
  +ℤ_parts, All, Bool-cases, List, [], arith, false, inl, inr, int_laws, leb_ℤ, leb_ℤ-false,
  leb_ℤ-true, ltb_ℤ, min_ℤ_glb, min_ℤ_le, not, pos, pos_parts, true, ◌&&◌, ◌<ℤ◌, ◌==ℤ◌, ◌∙◌, ◌∷◌,
  ◌≡◌, ◌≢◌, ◌≤ℤ◌,
}
use hft_sdk.Types.{Order, Price, Quantity, Side, Symbol, Timestamp}
use hft_sdk.L3Book.{L3Order, Levels, Progress}
use hft_sdk.L3Book.Levels.{before}
use hft_sdk.L3Book.Match.{
  open_qty, is_done, breaks_at, take_qty, replenish, resting_after, match_queue, match_against,
  match_qty, keep_level,
}

-- An order that rests at price `p` on side `s`.
pub record IsResting (s : Side) (p : Price) (o : L3Order) : Type 0 where
  pub side_eq : o.side ≡ s
  pub price_eq : o.price ≡ p
  pub shown : pos 0 ≤ℤ o.visible_qty
  pub held_back : pos 0 ≤ℤ o.hidden_qty
  pub alive : pos 0 <ℤ open_qty o

-- Best price first and no price twice, no empty level, every order at its place.
abbrev pub IsSide : Side → Levels → Type 0
IsSide s [] = Unit
IsSide s (l ∷ ls) =
    (l.queue ≢ [])
    × All (IsResting s l.price) l.queue
    × All (λ m. before s l.price m.price ≡ true) ls
    × IsSide s ls

replenish-shown :
    (o : L3Order)
    → pos 0 ≤ℤ o.visible_qty
    → pos 0 ≤ℤ o.hidden_qty
    → (pos 0 ≤ℤ (replenish o).visible_qty) × (pos 0 ≤ℤ (replenish o).hidden_qty)
unfolding replenish
replenish-shown o v k =
    elim (Bool-cases (o.visible_qty ==ℤ pos 0 && ltb_ℤ (pos 0) o.hidden_qty && o.is_iceberg)) [
      | inr e ↦ rw e (v, k)
      | inl e ↦
          let h = min_ℤ_le o.hidden_qty (pos 100) in
          let g = min_ℤ_glb o.hidden_qty (pos 100) (pos 0) k (omega int_laws) in
          rw e (g, omega int_laws)
    ]

take_qty-shown :
    (m : Quantity) (o : L3Order)
    → m ≤ℤ open_qty o
    → pos 0 ≤ℤ o.visible_qty
    → pos 0 ≤ℤ o.hidden_qty
    → (pos 0 ≤ℤ (take_qty m o).visible_qty) × (pos 0 ≤ℤ (take_qty m o).hidden_qty)
unfolding take_qty
take_qty-shown m o h v k = elim (Bool-cases (leb_ℤ m o.visible_qty)) [
  | inl e ↦ let l = leb_ℤ-true _ _ e in rw e (omega int_laws, k)
  | inr e ↦ let l = leb_ℤ-false _ _ e in rw e (omega int_laws, omega int_laws)
]

-- The fields that matching leaves alone.
pub resting_after_same :
    (o : L3Order) (s : Progress)
    → ((resting_after o s).id ≡ o.id)
      × ((resting_after o s).side ≡ o.side)
      × ((resting_after o s).price ≡ o.price)
unfolding resting_after replenish take_qty
resting_after_same o s = ground arith

resting_after-shown :
    {d : Side} {p : Price} (o : L3Order) (s : Progress)
    → IsResting d p o
    → (pos 0 ≤ℤ (resting_after o s).visible_qty) × (pos 0 ≤ℤ (resting_after o s).hidden_qty)
unfolding resting_after
resting_after-shown o s r =
    let t = take_qty-shown (match_qty o s) o (min_ℤ_le _ _).1 r.shown r.held_back in
    replenish-shown _ t.0 t.1

pub resting_after-IsResting :
    {d : Side} {p : Price} (o : L3Order) (s : Progress)
    → IsResting d p o
    → is_done (resting_after o s) ≡ false
    → IsResting d p (resting_after o s)
resting_after-IsResting o s r e = record {
  side_eq = (resting_after_same o s).1 ∙ r.side_eq;
  price_eq = (resting_after_same o s).2 ∙ r.price_eq;
  shown = (resting_after-shown o s r).0;
  held_back = (resting_after-shown o s r).1;
  alive =
      let h = resting_after-shown o s r in
      ground (
        arith,
        pos_parts 0,
        +ℤ_parts (resting_after o s).visible_qty (resting_after o s).hidden_qty,
      );
}

module _ (symbol : Symbol) (incoming : Order) (ts : Timestamp) where
  pub match_queue-All :
      (d : Side) (p : Price) (q : List L3Order) (s : Progress)
      → All (IsResting d p) q
      → All (IsResting d p) (match_queue symbol incoming ts p q s).0
  unfolding match_queue
  match_queue-All d p [] s a = tt
  match_queue-All d p (o ∷ q) s a = elim (Bool-cases (ltb_ℤ (pos 0) s.remaining)) [
    | inr e ↦ rw e a
    | inl e ↦ rw e (elim (Bool-cases (is_done (resting_after o s))) [
      | inl f ↦ rw f (match_queue-All d p q _ a.1)
      | inr f ↦ rw f (resting_after-IsResting o s a.0 f, match_queue-All d p q _ a.1)
    ])
  ]

  -- A level that is kept has a price that was there.
  keep_level-All :
      (P : Price → Type 0) (p : Price) (q : List L3Order) (ls : Levels)
      → P p
      → All (λ l. P l.price) ls
      → All (λ l. P l.price) (keep_level p q ls)
  keep_level-All P p [] ls h a = a
  keep_level-All P p (o ∷ q) ls h a = (h, a)

  pub match_against-prices :
      (P : Price → Type 0) (ls : Levels) (s : Progress)
      → All (λ l. P l.price) ls
      → All (λ l. P l.price) (match_against symbol incoming ts ls s).0
  unfolding match_against
  match_against-prices P [] s a = tt
  match_against-prices P (l ∷ ls) s a =
      elim (Bool-cases (ltb_ℤ (pos 0) s.remaining && not (breaks_at incoming l.price))) [
        | inr e ↦ rw e a
        | inl e ↦ rw e (keep_level-All P l.price _ _ a.0 (match_against-prices P ls _ a.1))
      ]

  keep_level-IsSide :
      (d : Side) (p : Price) (q : List L3Order) (ls : Levels)
      → All (IsResting d p) q
      → All (λ m. before d p m.price ≡ true) ls
      → IsSide d ls
      → IsSide d (keep_level p q ls)
  keep_level-IsSide d p [] ls a h i = i
  keep_level-IsSide d p (o ∷ q) ls a h i = ((λ e. cc), a, h, i)

  -- Matching keeps a side in shape.
  pub match_against-IsSide :
      (d : Side) (ls : Levels) (s : Progress)
      → IsSide d ls
      → IsSide d (match_against symbol incoming ts ls s).0
  unfolding match_against
  match_against-IsSide d [] s i = tt
  match_against-IsSide d (l ∷ ls) s i =
      elim (Bool-cases (ltb_ℤ (pos 0) s.remaining && not (breaks_at incoming l.price))) [
        | inr e ↦ rw e i
        | inl e ↦ rw e (
            keep_level-IsSide d l.price _ _ (match_queue-All d l.price l.queue s i.1)
              (match_against-prices (λ p. before d l.price p ≡ true) ls _ i.2)
              (match_against-IsSide d ls _ i.3))
      ]
