-- ===== src/L3Book/Counts.antt =====
-- The order counts of the two sides, kept on `size_t`.
use hft_sdk.Base.{
  All, Bool-cases, List, [], ap, arith, if◌then◌else◌, inl, inr, length, length-append, ltb_ℤ, not,
  pos, refl, suc, u64_mod, ℕ, ◌%◌, ◌&&◌, ◌+◌, ◌-◌, ◌∙◌, ◌∷◌, ◌≡◌,
}
use hft_sdk.Types.{Order, Price, Side, Symbol, Timestamp, buy, sell}
use hft_sdk.L3Book.{L3Order, Levels, Ledger, Progress}
use hft_sdk.L3Book.Levels.{before, push_level}
use hft_sdk.L3Book.Match.{
  is_done, breaks_at, drop_done, resting_after, match_one, record_trade, match_queue, match_against,
  keep_node, keep_level,
}
use hft_sdk.L3Book.Sides.{IsResting, IsSide, resting_after_same}

-- The number of orders of a side.
unfoldable pub size : Levels → ℕ
size [] = 0
size (l ∷ ls) = length l.queue + size ls

abbrev pub side_count : Side → Ledger → ℕ
side_count buy g = g.bid_order_count
side_count sell g = g.ask_order_count

abbrev pub other : Side → Side
other buy = sell
other sell = buy

-- The count `c` of a side with `n` orders goes with it to `n'`; the other side's count stays.
pub record Counts (n c t n' c' t' : ℕ) : Type 0 where
  pub here : (k : ℕ) → c ≡ (n + k) % u64_mod → c' ≡ (n' + k) % u64_mod
  pub there : t' ≡ t

Counts-refl : (n c t : ℕ) → Counts n c t n c t
Counts-refl n c t = record { here = λ k e. e; there = refl }

Counts-trans :
    {a f u b g v e h w : ℕ} → Counts a f u b g v → Counts b g v e h w → Counts a f u e h w
Counts-trans s t = record { here = λ k e. t.here k (s.here k e); there = t.there ∙ s.there }

-- `r` more orders of the same side stand by, before and after.
Counts-frame :
    (r m m' : ℕ) {a f u b g v : ℕ}
    → Counts a f u b g v
    → m ≡ a + r
    → m' ≡ b + r
    → Counts m f u m' g v
Counts-frame r m m' {a} {f} {u} {b} s h h' = record {
  here = λ k e.
      s.here (r + k) (e ∙ ap (λ n. n % u64_mod) (omega arith))
      ∙ ap (λ n. n % u64_mod) (omega arith);
  there = s.there;
}

length-keep_node :
    (o : L3Order) (q : List L3Order)
    → length (keep_node o q) ≡ (if is_done o then 0 else 1) + length q
length-keep_node o q = elim (Bool-cases (is_done o)) [
  | inl e ↦ rw e (omega arith)
  | inr e ↦ rw e (omega arith)
]

size-keep_level :
    (p : Price) (q : List L3Order) (ls : Levels) → size (keep_level p q ls) ≡ length q + size ls
unfolding size
size-keep_level p [] ls = omega arith
size-keep_level p (o ∷ q) ls = refl

drop_done-counts :
    (d : Side) (o : L3Order) (g : Ledger)
    → o.side ≡ d
    → (side_count d (drop_done o g)
        ≡ (if is_done o then (side_count d g + u64_mod - 1) % u64_mod else side_count d g))
      × (side_count (other d) (drop_done o g) ≡ side_count (other d) g)
unfolding drop_done
drop_done-counts buy o g e = ground arith
drop_done-counts sell o g e = ground arith

side_count-record_trade :
    (symbol : Symbol) (incoming : Order) (ts : Timestamp) (d : Side) (p : Price) (o : L3Order)
    (s : Progress)
    → side_count d (record_trade symbol incoming ts p o s).ledger ≡ side_count d s.ledger
unfolding record_trade
side_count-record_trade symbol incoming ts buy p o s = refl
side_count-record_trade symbol incoming ts sell p o s = refl

module _ (symbol : Symbol) (incoming : Order) (ts : Timestamp) (d : Side) where
  -- From `n` orders at `s` to `n'` at `s'`.
  abbrev pub CountsAt : ℕ → Progress → ℕ → Progress → Type 0
  CountsAt n s n' s' =
      Counts n (side_count d s.ledger) (side_count (other d) s.ledger) n' (side_count d s'.ledger)
        (side_count (other d) s'.ledger)

  match_one-Counts :
      (p : Price) (o : L3Order) (s : Progress)
      → o.side ≡ d
      → CountsAt 1 s
          (if is_done (resting_after o s) then 0 else 1)
          (match_one symbol incoming ts p o s)
  unfolding match_one
  match_one-Counts p o s e =
      let r = record_trade symbol incoming ts p o s in
      let c = drop_done-counts d (resting_after o s) r.ledger ((resting_after_same o s).1 ∙ e) in
      let t = side_count-record_trade symbol incoming ts d p o s in
      record {
        here = λ k h. ground (arith, c.0, t, h);
        there = c.1 ∙ side_count-record_trade symbol incoming ts (other d) p o s;
      }

  match_queue-Counts :
      (p : Price) (q : List L3Order) (s : Progress)
      → All (IsResting d p) q
      → let (q', s') = match_queue symbol incoming ts p q s in CountsAt (length q) s (length q') s'
  unfolding match_queue
  match_queue-Counts p [] s a = Counts-refl _ _ _
  match_queue-Counts p (o ∷ q) s a = elim (Bool-cases (ltb_ℤ (pos 0) s.remaining)) [
    | inr e ↦ rw e (Counts-refl _ _ _)
    | inl e ↦ rw e (
        Counts-trans
          (Counts-frame (length q) _ _ (match_one-Counts p o s a.0.side_eq) (omega arith) refl)
          (Counts-frame (if is_done (resting_after o s) then 0 else 1) _ _
            (match_queue-Counts p q _ a.1) (omega arith)
            (omega (
              arith,
              length-keep_node (resting_after o s)
                  (match_queue symbol incoming ts p q (match_one symbol incoming ts p o s)).0,
            ))))
  ]

  pub match_against-Counts :
      (ls : Levels) (s : Progress)
      → IsSide d ls
      → let (ls', s') = match_against symbol incoming ts ls s in CountsAt (size ls) s (size ls') s'
  unfolding match_against size
  match_against-Counts [] s i = Counts-refl _ _ _
  match_against-Counts (l ∷ ls) s i =
      elim (Bool-cases (ltb_ℤ (pos 0) s.remaining && not (breaks_at incoming l.price))) [
        | inr e ↦ rw e (Counts-refl _ _ _)
        | inl e ↦
            let q' = (match_queue symbol incoming ts l.price l.queue s).0 in
            let s' = (match_queue symbol incoming ts l.price l.queue s).1 in
            rw e (
              Counts-trans
                (Counts-frame (size ls) _ _ (match_queue-Counts l.price l.queue s i.1) refl refl)
                (Counts-frame (length q') _ _ (match_against-Counts ls s' i.3) (omega arith) (
                  omega (
                    arith,
                    size-keep_level l.price q' (match_against symbol incoming ts ls s').0,
                  ))))
      ]

pub size-push_level :
    (s : Side) (p : Price) (o : L3Order) (ls : Levels) → size (push_level s p o ls) ≡ suc (size ls)
unfolding push_level size
size-push_level s p o [] = refl
size-push_level s p o (l ∷ ls) = elim (Bool-cases (before s p l.price)) [
  | inl e ↦ rw e (omega arith)
  | inr e ↦ rw e (elim (Bool-cases (before s l.price p)) [
    | inl f ↦ rw f (omega (arith, size-push_level s p o ls))
    | inr f ↦ rw f (rw (length-append l.queue) (omega arith))
  ])
]
