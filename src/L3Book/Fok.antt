-- ===== src/L3Book/Fok.antt =====
-- Fill-or-kill: all or nothing, decided by the quantity within the limit.
use hft_sdk.Base.{
  +ℤ-zero, +ℤ_assoc, ==ℤ_iff, All, Bool-cases, List, [], ap, arith, eq_of_parts, false,
  if◌then◌else◌, inl, inr, int_laws, leb_ℤ, leb_ℤ-false, leb_ℤ-true, le→ltb_ℤ, ltb_ℤ, ltb_ℤ-false,
  ltb_ℤ-true, lt→ltb_ℤ, parts_of_eq, pos, refl, sym, true, zero-+ℤ, ◌&&◌, ◌+ℤ◌, ◌<ℤ◌, ◌∙◌, ◌∷◌, ◌≡◌,
  ◌≤ℤ◌,
}
use hft_sdk.Types.{Order, Price, Quantity, Symbol, Timestamp, fok}
use hft_sdk.L3Book.{L3Order, Levels, Book, Progress, MatchResult}
use hft_sdk.L3Book.Match.{
  breaks_at, queue_available, available_for, is_fok, cannot_fill, match_queue, match_against,
  run_match, match_incoming, opposite, start,
}
use hft_sdk.L3Book.Fills.{queue_open, match_queue-Moves}
use hft_sdk.L3Book.Steps.{AllOrders, match_against_idle, match_queue_exhausts}
use hft_sdk.L3Book.Trades.{IsOffer, IdsFrom, id_after, match_against-Good}

queue_available-eq : (q : List L3Order) (a : Quantity) → queue_available q a ≡ a +ℤ queue_open q
unfolding queue_available queue_open
queue_available-eq [] a = omega int_laws
queue_available-eq (o ∷ q) a = rw (queue_available-eq q) (omega int_laws)

module _ (symbol : Symbol) (o : Order) (ts : Timestamp) where
  -- A queue with more to want than it offers is used up.
  match_queue_used :
      (p : Price) (q : List L3Order) (s : Progress)
      → let s' = (match_queue symbol o ts p q s).1 in
        pos 0 <ℤ s'.remaining → s.remaining ≡ s'.remaining +ℤ queue_open q
  unfolding queue_open
  match_queue_used p q s h =
      let m = match_queue-Moves symbol o ts p q s in
      let e = match_queue_exhausts symbol o ts p q s (lt→ltb_ℤ _ _ h) in
      let f = rw e at m.supply in omega (int_laws, parts_of_eq m.demand, parts_of_eq f)

  -- If enough was counted, the loops leave nothing to trade.
  enough :
      (ls : Levels) (a : Quantity) (s : Progress)
      → s.remaining +ℤ a ≤ℤ o.quantity
      → o.quantity ≤ℤ available_for o ls a
      → (match_against symbol o ts ls s).1.remaining ≤ℤ pos 0
  unfolding match_against available_for
  enough [] a s k = λ h. omega int_laws
  enough (l ∷ ls) a s k = elim (Bool-cases (breaks_at o l.price)) [
    | inl f ↦ rw f (elim (Bool-cases (ltb_ℤ (pos 0) s.remaining)) [
      | inl g ↦ rw g (λ h. omega int_laws)
      | inr g ↦ let z = ltb_ℤ-false _ _ g in rw g (λ h. z)
    ])
    | inr f ↦ rw f (elim (Bool-cases (ltb_ℤ (pos 0) s.remaining)) [
      | inr g ↦ let z = ltb_ℤ-false _ _ g in rw g (λ h. z)
      | inl g ↦
          let s' = (match_queue symbol o ts l.price l.queue s).1 in
          let counted = queue_available l.queue a in
          let c = parts_of_eq (queue_available-eq l.queue a) in
          rw g (elim (Bool-cases (ltb_ℤ (pos 0) s'.remaining)) [
            | inr i ↦
                let z = ltb_ℤ-false _ _ i in rw (match_against_idle symbol o ts ls s' i) (λ h. z)
            | inl i ↦
                let u =
                  parts_of_eq
                    (match_queue_used l.price l.queue s (ltb_ℤ-true (pos 0) s'.remaining i)) in
                elim (Bool-cases (leb_ℤ o.quantity counted)) [
                  | inl j ↦
                      let z = leb_ℤ-true o.quantity counted j in
                      let w = ltb_ℤ-true (pos 0) s'.remaining i in
                      rw j (λ h. absurd (omega int_laws))
                  | inr j ↦ rw j (enough ls counted s' (omega int_laws))
                ]
          ])
    ])
  ]

-- What the side offers within the limit of an order, to its last level.
unfoldable pub reachable : Order → Levels → Quantity
reachable o [] = pos 0
reachable o (l ∷ ls) = if breaks_at o l.price then pos 0 else queue_open l.queue +ℤ reachable o ls

queue_open-nonneg : (p : Price) (q : List L3Order) → All (IsOffer p) q → pos 0 ≤ℤ queue_open q
unfolding queue_open
queue_open-nonneg p [] a = omega arith
queue_open-nonneg p (o ∷ q) a = let h = queue_open-nonneg p q a.1 in let k = a.0 in omega int_laws

reachable-nonneg : (o : Order) (ls : Levels) → AllOrders IsOffer ls → pos 0 ≤ℤ reachable o ls
unfolding reachable
reachable-nonneg o [] a = omega arith
reachable-nonneg o (l ∷ ls) a = elim (Bool-cases (breaks_at o l.price)) [
  | inl e ↦ rw e (omega arith)
  | inr e ↦
      let h = queue_open-nonneg l.price l.queue a.0 in
      let k = reachable-nonneg o ls a.1 in rw e (omega int_laws)
]

-- The count stops early, and so tells only whether there is enough.
available_for-reachable :
    (o : Order) (ls : Levels) (a : Quantity)
    → AllOrders IsOffer ls
    → a <ℤ o.quantity
    → ltb_ℤ (available_for o ls a) o.quantity ≡ ltb_ℤ (a +ℤ reachable o ls) o.quantity
unfolding available_for reachable
available_for-reachable o [] a h k = rw +ℤ-zero refl
available_for-reachable o (l ∷ ls) a h k = elim (Bool-cases (breaks_at o l.price)) [
  | inl e ↦ rw e (rw +ℤ-zero refl)
  | inr e ↦
      let r = reachable-nonneg o ls h.1 in
      rw (e, queue_available-eq l.queue a)
        (elim (Bool-cases (leb_ℤ o.quantity (a +ℤ queue_open l.queue))) [
          | inl j ↦
              let z = leb_ℤ-true o.quantity (a +ℤ queue_open l.queue) j in
              rw j (
                le→ltb_ℤ _ o.quantity z
                ∙ sym (
                    le→ltb_ℤ (a +ℤ (queue_open l.queue +ℤ reachable o ls)) o.quantity
                      (omega int_laws)))
          | inr j ↦ rw j (
              available_for-reachable o ls (a +ℤ queue_open l.queue) h.1 (leb_ℤ-false _ _ j)
              ∙ ap (λ x. ltb_ℤ x o.quantity) (+ℤ_assoc a (queue_open l.queue) (reachable o ls)))
        ])
]

-- What becomes of a fill-or-kill order, by what is within reach.
pub record AllOrNothing (b : Book) (o : Order) (b' : Book) (r : MatchResult) : Type 0 where
  pub all :
      o.quantity ≤ℤ reachable o (opposite b o.side)
      → (r.remaining_qty ≡ pos 0) × (r.fully_filled ≡ true)
  pub nothing :
      reachable o (opposite b o.side) <ℤ o.quantity
      → (b' ≡ b) × (r.trades ≡ []) × (r.remaining_qty ≡ o.quantity) × (r.fully_filled ≡ false)

available-reachable :
    (o : Order) (ls : Levels)
    → pos 0 <ℤ o.quantity
    → AllOrders IsOffer ls
    → ltb_ℤ (available_for o ls (pos 0)) o.quantity ≡ ltb_ℤ (reachable o ls) o.quantity
available-reachable o ls h a =
    available_for-reachable o ls (pos 0) a h ∙ ap (λ x. ltb_ℤ x o.quantity) (zero-+ℤ _)

-- With enough within reach the loops fill the order.
run_match-filled :
    (b : Book) (o : Order) (ts : Timestamp)
    → pos 0 <ℤ o.quantity
    → AllOrders IsOffer (opposite b o.side)
    → ltb_ℤ (reachable o (opposite b o.side)) o.quantity ≡ false
    → (run_match b o ts).1.remaining ≡ pos 0
unfolding run_match IdsFrom id_after
run_match-filled b o ts h a e =
    let ls = opposite b o.side in
    let g =
      match_against-Good b.symbol o ts b.next_trade_id ls (start b o) a
        (record { fills = tt; ids = tt; next = refl; left = omega arith; most = omega arith }) in
    let n =
      enough b.symbol o ts ls (pos 0) (start b o) (omega int_laws)
        (ltb_ℤ-false _ _ (available-reachable o ls h a ∙ e)) in
    eq_of_parts _ _ (omega (arith, g.left, n))

-- The check of a fill-or-kill order compares what is within reach.
cannot_fill-reachable :
    (b : Book) (o : Order)
    → o.tif ≡ fok
    → pos 0 <ℤ o.quantity
    → AllOrders IsOffer (opposite b o.side)
    → cannot_fill b o ≡ ltb_ℤ (reachable o (opposite b o.side)) o.quantity
unfolding cannot_fill
cannot_fill-reachable b o f h a =
    ap (λ t. is_fok t && ltb_ℤ (available_for o (opposite b o.side) (pos 0)) o.quantity) f
    ∙ available-reachable o (opposite b o.side) h a

-- A fill-or-kill order of positive quantity, where all that rests on the opposite side has an open
-- quantity above zero, is filled whole if the opposite side offers its quantity within its limit,
-- and otherwise leaves the book as it is and trades nothing.
pub match_incoming-AllOrNothing :
    (b : Book) (o : Order) (ts : Timestamp)
    → o.tif ≡ fok
    → pos 0 <ℤ o.quantity
    → AllOrders IsOffer (opposite b o.side)
    → let (b', r) = match_incoming b o ts in AllOrNothing b o b' r
unfolding match_incoming
match_incoming-AllOrNothing b o ts f h a =
    rw (cannot_fill-reachable b o f h a)
      (elim (Bool-cases (ltb_ℤ (reachable o (opposite b o.side)) o.quantity)) [
        | inl e ↦
            let z = ltb_ℤ-true _ _ e in
            rw e (record {
              all = λ k. absurd (omega (arith, z, k));
              nothing = λ k. (refl, refl, refl, refl);
            })
        | inr e ↦
            let z = ltb_ℤ-false _ _ e in
            let n = run_match-filled b o ts h a e in
            rw e (record {
              all = λ k. (n, (==ℤ_iff _ _).1 n);
              nothing = λ k. absurd (omega (arith, z, k));
            })
      ])
