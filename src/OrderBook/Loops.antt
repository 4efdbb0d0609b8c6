-- ===== src/OrderBook/Loops.antt =====
-- The two `while` loops of `matchIncoming` of `order_book.cpp` as they are written, on fuel: `none` is
-- a loop that has not ended.
use hft_sdk.Base.{
  All, Bool-cases, List, Option, [], arith, false, if◌then◌else◌, inl, inr, length, ltb_ℤ, min_ℤ,
  none, not, pos, refl, some, suc, zero, ℕ, ◌&&◌, ◌-ℤ◌, ◌<◌, ◌==ℤ◌, ◌∙◌, ◌∷◌, ◌≡◌, ◌≤◌, ◌⊎◌,
}
use hft_sdk.Types.{Price, Symbol, Timestamp}
use hft_sdk.OrderBook.Quantities.{fill_one-ends}
use hft_sdk.OrderBook.{
  BookOrder, BookNode, PriceLevel, OrderBook, Filling, is_beyond, fill_one, fill_queue, fill_side,
  keep_filled, match_book_order, side_of, with_side, resting_side,
}

module _ (symbol : Symbol) (incoming : BookOrder) (ts : Timestamp) where
  -- `while (remaining > 0 && !queue.empty())`.
  unfoldable pub queue_loop : ℕ → Price → List BookNode → Filling → Option (List BookNode × Filling)
  queue_loop zero p q f = none
  queue_loop (suc fuel) p [] f = some ([], f)
  queue_loop (suc fuel) p (n ∷ q) f =
      let left = n.order.qty -ℤ min_ℤ f.remaining n.order.qty in
      let f' = fill_one symbol incoming ts p n.order f in
      let q' =
        if left ==ℤ pos 0 then q else record n { order = record (n.order) { qty = left } } ∷ q in
      let rest = queue_loop fuel p q' f' in
      if ltb_ℤ (pos 0) f.remaining then rest else some (n ∷ q, f)

  -- `while (remaining > 0 && !asks_.empty())`, whose inner loop has `rounds` of fuel each time.
  unfoldable pub side_loop : ℕ → ℕ → List PriceLevel → Filling → Option (List PriceLevel × Filling)
  side_loop zero rounds ls f = none
  side_loop (suc fuel) rounds [] f = some ([], f)
  side_loop (suc fuel) rounds (l ∷ ls) f =
      if ltb_ℤ (pos 0) f.remaining && not (is_beyond incoming l.price)
      then elim (queue_loop rounds l.price l.queue f) [
        | none ↦ none
        | some (q, f') ↦ side_loop fuel rounds (keep_filled l.price q ls) f'
      ]
      else some (l ∷ ls, f)

  queue_loop_idle :
      (fuel : ℕ) (p : Price) (q : List BookNode) (f : Filling)
      → 0 < fuel
      → ltb_ℤ (pos 0) f.remaining ≡ false
      → queue_loop fuel p q f ≡ some (q, f)
  unfolding queue_loop
  queue_loop_idle zero p q f h e = absurd (omega arith)
  queue_loop_idle (suc fuel) p [] f h e = refl
  queue_loop_idle (suc fuel) p (n ∷ q) f h e = rw e refl

  queue_loop-fill_queue :
      (fuel : ℕ) (p : Price) (q : List BookNode) (f : Filling)
      → suc (length q) ≤ fuel
      → queue_loop fuel p q f ≡ some (fill_queue symbol incoming ts p q f)
  unfolding queue_loop fill_queue
  queue_loop-fill_queue zero p q f h = absurd (omega arith)
  queue_loop-fill_queue (suc fuel) p [] f h = refl
  queue_loop-fill_queue (suc fuel) p (n ∷ q) f h = elim (Bool-cases (ltb_ℤ (pos 0) f.remaining)) [
    | inr e ↦ rw e refl
    | inl e ↦ elim (Bool-cases ((n.order.qty -ℤ min_ℤ f.remaining n.order.qty) ==ℤ pos 0)) [
      | inl g ↦ rw (e, g) (queue_loop-fill_queue fuel p q _ (omega arith))
      | inr g ↦
          rw (e, g)
            (queue_loop_idle fuel p _ _ (omega arith)
              (fill_one-ends symbol incoming ts p n.order f g))
    ]
  ]

  -- A level that is not used up leaves nothing to match.
  fill_queue_left :
      (p : Price) (q : List BookNode) (f : Filling)
      → let (q', f') = fill_queue symbol incoming ts p q f in
        (q' ≡ []) ⊎ (ltb_ℤ (pos 0) f'.remaining ≡ false)
  unfolding fill_queue
  fill_queue_left p [] f = inl refl
  fill_queue_left p (n ∷ q) f = elim (Bool-cases (ltb_ℤ (pos 0) f.remaining)) [
    | inr e ↦ rw e (inr e)
    | inl e ↦ elim (Bool-cases ((n.order.qty -ℤ min_ℤ f.remaining n.order.qty) ==ℤ pos 0)) [
      | inl g ↦ rw (e, g) (fill_queue_left p q _)
      | inr g ↦ rw (e, g) (inr (fill_one-ends symbol incoming ts p n.order f g))
    ]
  ]

  fill_side_idle :
      (ls : List PriceLevel) (f : Filling)
      → ltb_ℤ (pos 0) f.remaining ≡ false
      → fill_side symbol incoming ts ls f ≡ (ls, f)
  unfolding fill_side
  fill_side_idle [] f e = refl
  fill_side_idle (l ∷ ls) f e = rw e refl

  side_loop_idle :
      (fuel rounds : ℕ) (ls : List PriceLevel) (f : Filling)
      → 0 < fuel
      → ltb_ℤ (pos 0) f.remaining ≡ false
      → side_loop fuel rounds ls f ≡ some (ls, f)
  unfolding side_loop
  side_loop_idle zero rounds ls f h e = absurd (omega arith)
  side_loop_idle (suc fuel) rounds [] f h e = refl
  side_loop_idle (suc fuel) rounds (l ∷ ls) f h e = rw e refl

  pub side_loop-fill_side :
      (fuel rounds : ℕ) (ls : List PriceLevel) (f : Filling)
      → length ls < fuel
      → All (λ l. length l.queue < rounds) ls
      → side_loop fuel rounds ls f ≡ some (fill_side symbol incoming ts ls f)
  unfolding side_loop fill_side
  side_loop-fill_side zero rounds ls f h k = absurd (omega arith)
  side_loop-fill_side (suc fuel) rounds [] f h k = refl
  side_loop-fill_side (suc fuel) rounds (l ∷ ls) f h k =
      elim (Bool-cases (ltb_ℤ (pos 0) f.remaining && not (is_beyond incoming l.price))) [
        | inr e ↦ rw e refl
        | inl e ↦
            let (q', f') = fill_queue symbol incoming ts l.price l.queue f in
            let inner = queue_loop-fill_queue rounds l.price l.queue f (omega (arith, k.0)) in
            rw (e, inner, side_loop)
              (elim (fill_queue_left l.price l.queue f) [
                | inl z ↦ rw z (side_loop-fill_side fuel rounds ls f' (omega arith) k.1)
                | inr i ↦
                    side_loop_idle fuel rounds (keep_filled l.price q' ls) f' (omega arith) i
                    ∙ rw (fill_side_idle ls f' i) refl
              ])
      ]

-- `matchIncoming` with its loops on fuel.
unfoldable pub match_loops : ℕ → OrderBook → BookOrder → Timestamp → Option (OrderBook × Filling)
match_loops fuel b o ts =
    let s = resting_side o.side in
    let begun : Filling = record { order_index = b.order_index; trades = []; remaining = o.qty } in
    elim (side_loop b.symbol o ts fuel fuel (side_of b s) begun) [
      | none ↦ none
      | some (ls, f) ↦ some (with_side s ls (record b { order_index = f.order_index }), f)
    ]

-- Fuel above the number of levels and the lengths of their queues.
abbrev pub IsEnough : ℕ → List PriceLevel → Type 0
IsEnough fuel ls = (length ls < fuel) × All (λ l. length l.queue < fuel) ls

-- The two loops of the matching of the simple book, written as loops that go on as their
-- conditions say, end within as many rounds as the levels and the orders of a queue are, and one
-- round more, and give what the walk over the lists gives.
pub match_loops-match_book_order :
    (b : OrderBook) (o : BookOrder) (ts : Timestamp) (fuel : ℕ)
    → IsEnough fuel (side_of b (resting_side o.side))
    → match_loops fuel b o ts ≡ some (match_book_order b o ts)
unfolding match_loops match_book_order
match_loops-match_book_order b o ts fuel h =
    let s = resting_side o.side in
    let begun : Filling = record { order_index = b.order_index; trades = []; remaining = o.qty } in
    let e = side_loop-fill_side b.symbol o ts fuel fuel (side_of b s) begun h.0 h.1 in
    rw (e, match_loops) refl
