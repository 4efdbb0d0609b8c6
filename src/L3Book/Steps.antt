-- ===== src/L3Book/Steps.antt =====
-- The two matching loops as one rule of induction, what it gives about the trades, and when the
-- loops stop.
use hft_sdk.Base.{
  ==ℤ_iff, All, Bool-cases, List, [], arith, false, inl, inr, int_laws, ltb_ℤ, min_ℤ_cases, not,
  parts_of_eq, pos, pos_parts, refl, true, ◌&&◌, ◌<ℤ◌, ◌∷◌, ◌≡◌, -ℤ_parts,
}
use hft_sdk.Types.{Order, Price, Symbol, Timestamp}
use hft_sdk.L3Book.{L3Order, Levels, Progress}
use hft_sdk.L3Book.Match.{
  open_qty, is_done, breaks_at, resting_after, match_one, match_queue, match_against, match_qty,
  record_trade,
}
use hft_sdk.L3Book.Fills.{open_qty-resting_after}

-- A predicate of the orders of a side, with the price of their level.
abbrev pub AllOrders : (Price → L3Order → Type 0) → Levels → Type 0
AllOrders R ls = All (λ l. All (R l.price) l.queue) ls

module _ (symbol : Symbol) (incoming : Order) (ts : Timestamp) where
  -- What every turn of the inner loop keeps, the loops keep.
  module _ (R : Price → L3Order → Type 0) (P : Progress → Type 0)
      (step : (p : Price) (o : L3Order) (s : Progress)
        → breaks_at incoming p ≡ false
        → R p o
        → pos 0 <ℤ s.remaining
        → P s
        → P (match_one symbol incoming ts p o s)) where
    match_queue-inv :
        (p : Price) (q : List L3Order) (s : Progress)
        → breaks_at incoming p ≡ false
        → All (R p) q
        → P s
        → P (match_queue symbol incoming ts p q s).1
    unfolding match_queue
    match_queue-inv p [] s h a i = i
    match_queue-inv p (o ∷ q) s h a i = elim (Bool-cases (ltb_ℤ (pos 0) s.remaining)) [
      | inr e ↦ rw e i
      | inl e ↦ rw e (match_queue-inv p q _ h a.1 (step p o s h a.0 (ground arith) i))
    ]

    pub match_against-inv :
        (ls : Levels) (s : Progress)
        → AllOrders R ls
        → P s
        → P (match_against symbol incoming ts ls s).1
    unfolding match_against
    match_against-inv [] s a i = i
    match_against-inv (l ∷ ls) s a i =
        elim (Bool-cases (ltb_ℤ (pos 0) s.remaining && not (breaks_at incoming l.price))) [
          | inr e ↦ rw e i
          | inl e ↦
              rw e (
                match_against-inv ls _ a.1 (match_queue-inv l.price l.queue s (ground arith) a.0 i))
        ]

  -- With nothing left to trade the loops change nothing.
  pub match_queue_idle :
      (p : Price) (q : List L3Order) (s : Progress)
      → ltb_ℤ (pos 0) s.remaining ≡ false
      → match_queue symbol incoming ts p q s ≡ (q, s)
  unfolding match_queue
  match_queue_idle p [] s h = refl
  match_queue_idle p (o ∷ q) s h = rw h refl

  pub match_against_idle :
      (ls : Levels) (s : Progress)
      → ltb_ℤ (pos 0) s.remaining ≡ false
      → match_against symbol incoming ts ls s ≡ (ls, s)
  unfolding match_against
  match_against_idle [] s h = refl
  match_against_idle (l ∷ ls) s h = rw h refl

  -- A resting order that does not stop the incoming one is used up.
  resting_after_done :
      (p : Price) (o : L3Order) (s : Progress)
      → ltb_ℤ (pos 0) (match_one symbol incoming ts p o s).remaining ≡ true
      → is_done (resting_after o s) ≡ true
  unfolding match_one record_trade
  resting_after_done p o s h = rw (open_qty-resting_after o s) (
      (==ℤ_iff _ _).1 (elim (min_ℤ_cases s.remaining (open_qty o)) [
        | inl c ↦ rw c.0 (omega int_laws)
        | inr c ↦
            absurd
              (ground (arith, pos_parts 0, parts_of_eq c.0, -ℤ_parts s.remaining (match_qty o s)))
      ]))

  -- A queue that was walked with quantity to spare is empty.
  pub match_queue_exhausts :
      (p : Price) (q : List L3Order) (s : Progress)
      → let (q', s') = match_queue symbol incoming ts p q s in
        ltb_ℤ (pos 0) s'.remaining ≡ true → q' ≡ []
  unfolding match_queue
  match_queue_exhausts p [] s = λ h. refl
  match_queue_exhausts p (o ∷ q) s = elim (Bool-cases (ltb_ℤ (pos 0) s.remaining)) [
    | inr e ↦ rw e (λ h. cc)
    | inl e ↦
        rw e (elim (Bool-cases (ltb_ℤ (pos 0) (match_one symbol incoming ts p o s).remaining)) [
          | inl f ↦ rw (resting_after_done p o s f) (match_queue_exhausts p q _)
          | inr f ↦ rw (match_queue_idle p q (match_one symbol incoming ts p o s) f) (λ h. cc)
        ])
  ]

  -- The best level that is left is beyond the limit, or none is left.
  abbrev pub Blocked : Levels → Type 0
  Blocked [] = Unit
  Blocked (l ∷ ls) = breaks_at incoming l.price ≡ true

  -- So the walk over a side with quantity to spare ends at a level beyond the limit, or at the end.
  pub match_against_exhausts :
      (ls : Levels) (s : Progress)
      → let (ls', s') = match_against symbol incoming ts ls s in
        ltb_ℤ (pos 0) s'.remaining ≡ true → Blocked ls'
  unfolding match_against
  match_against_exhausts [] s = λ h. tt
  match_against_exhausts (l ∷ ls) s =
      elim (Bool-cases (ltb_ℤ (pos 0) s.remaining && not (breaks_at incoming l.price))) [
        | inr e ↦ rw e (λ h. ground arith)
        | inl e ↦
            rw e
              (elim (Bool-cases
                (ltb_ℤ (pos 0) (match_queue symbol incoming ts l.price l.queue s).1.remaining)) [
                  | inl f ↦
                      rw (match_queue_exhausts l.price l.queue s f) (match_against_exhausts ls _)
                  | inr f ↦
                      rw
                        (match_against_idle ls (match_queue symbol incoming ts l.price l.queue s).1
                          f)
                        (λ h. cc)
                ])
      ]
