-- ===== src/L3Book/Priority.antt =====
-- The trades of `l3_order_book.cpp` against the walk over the offers of the opposite side, which stand
-- with the best price first and, of one price, the oldest first.
use hft_sdk.Base.{
  Bool-cases, List, [], ap, append-nil, append_assoc, arith, false, inl, inr, ltb_ℤ, map, not, pos,
  refl, sym, true, ◌&&◌, ◌++◌, ◌-ℤ◌, ◌==ℤ◌, ◌∙◌, ◌∷◌, ◌≡◌,
}
use hft_sdk.Types.{Order, Price, Side, Symbol, Timestamp, buy, sell}
use hft_sdk.L3Book.{L3Order, Levels, Progress, Book, MatchResult}
use hft_sdk.L3Book.Match.{
  is_done, breaks_at, start, resting_after, record_trade, match_one, match_queue, match_against,
  match_incoming, cannot_fill, run_match, opposite, match_qty, keep_node,
}
use hft_sdk.L3Book.Fills.{open_qty-resting_after, opposite-with_opposite}
use hft_sdk.L3Book.Offers.{
  Offer, offer_of, queue_offers, offers, taken, untaken, of_trade, of_trade-snoc, taken_none,
  taken_stop, offer_of-resting_after, offers-keep_node, offers-keep_level,
}
use hft_sdk.L3Book.Sides.{IsSide}
use hft_sdk.L3Book.Valid.{IsValid}

-- From progress `s` with the offers `os` ahead to progress `t` with `ps` ahead, where the offers `done`
-- are left behind.
record Walks (incoming : Order) (s : Progress) (os : List Offer) (t : Progress)
    (done ps : List Offer) : Type 0 where
  trades :
      map of_trade t.trades ++ taken incoming t.remaining ps
      ≡ map of_trade s.trades ++ taken incoming s.remaining os
  remains : done ++ untaken incoming t.remaining ps ≡ untaken incoming s.remaining os

module _ (symbol : Symbol) (incoming : Order) (ts : Timestamp) where
  match_one-Walks :
      (p : Price) (o : L3Order) (s : Progress) (os : List Offer)
      → ltb_ℤ (pos 0) s.remaining ≡ true
      → breaks_at incoming p ≡ false
      → Walks incoming s
          (offer_of p o ∷ os)
          (match_one symbol incoming ts p o s)
          (queue_offers p (keep_node (resting_after o s) []))
          os
  unfolding match_one record_trade taken untaken
  match_one-Walks p o s os h k =
      let m = match_qty o s in
      let rest = taken incoming (s.remaining -ℤ m) os in
      record {
        trades =
            ap (λ l. l ++ rest) (of_trade-snoc s.trades _)
            ∙ append_assoc (map of_trade s.trades) _ rest
            ∙ rw (h, k) refl;
        remains =
            let same = ap (λ x. x ==ℤ pos 0) (sym (open_qty-resting_after o s)) in
            elim (Bool-cases (is_done (resting_after o s))) [
              | inl e ↦ let f = same ∙ e in rw (e, h, k, f) refl
              | inr e ↦
                  let f = same ∙ e in
                  rw (e, h, k, f)
                    (ap (λ x. x ∷ untaken incoming (s.remaining -ℤ m) os)
                      (offer_of-resting_after p o s))
            ];
      }

  Walks-then :
      {s t u : Progress} {os ps qs : List Offer} {d e : List Offer}
      → Walks incoming s os t d ps
      → Walks incoming t ps u e qs
      → Walks incoming s os u (d ++ e) qs
  Walks-then {d = d} {e} v w = record {
    trades = w.trades ∙ v.trades;
    remains = append_assoc d e _ ∙ ap (λ l. d ++ l) w.remains ∙ v.remains;
  }

  match_queue-Walks :
      (p : Price) (q : List L3Order) (s : Progress) (os : List Offer)
      → breaks_at incoming p ≡ false
      → let (q', s') = match_queue symbol incoming ts p q s in
        Walks incoming s (queue_offers p q ++ os) s' (queue_offers p q') os
  unfolding match_queue
  match_queue-Walks p [] s os k = record { trades = refl; remains = refl }
  match_queue-Walks p (o ∷ q) s os k = elim (Bool-cases (ltb_ℤ (pos 0) s.remaining)) [
    | inl h ↦
        let step = match_one-Walks p o s (queue_offers p q ++ os) h k in
        let rest = match_queue-Walks p q (match_one symbol incoming ts p o s) os k in
        rw h (rw (offers-keep_node p (resting_after o s)) (Walks-then step rest))
    | inr h ↦ rw h (record {
      trades =
          ap (λ l. map of_trade s.trades ++ l)
            ((taken_none incoming s.remaining os h).0
              ∙ sym (taken_none incoming s.remaining (queue_offers p (o ∷ q) ++ os) h).0);
      remains =
          ap (λ l. queue_offers p (o ∷ q) ++ l) (taken_none incoming s.remaining os h).1
          ∙ sym (taken_none incoming s.remaining (queue_offers p (o ∷ q) ++ os) h).1;
    })
  ]

  match_against-taken :
      (d : Side) (ls : Levels) (s : Progress)
      → IsSide d ls
      → let (ls', s') = match_against symbol incoming ts ls s in
        (map of_trade s'.trades ≡ map of_trade s.trades ++ taken incoming s.remaining (offers ls))
        × (offers ls' ≡ untaken incoming s.remaining (offers ls))
  unfolding match_against offers taken untaken
  match_against-taken d [] s v = (sym (append-nil _), refl)
  match_against-taken d (l ∷ ls) s v =
      elim (Bool-cases (ltb_ℤ (pos 0) s.remaining && not (breaks_at incoming l.price))) [
        | inr e ↦
            let stop = taken_stop incoming s.remaining l.price l.queue (offers ls) v.0 e in
            rw (e, stop.0) (sym (append-nil _), sym stop.1)
        | inl e ↦
            let w = match_queue-Walks l.price l.queue s (offers ls) (ground arith) in
            let (q', s') = match_queue symbol incoming ts l.price l.queue s in
            let (t, r) = match_against-taken d ls s' v.3 in
            rw e (
              t ∙ w.trades,
              offers-keep_level l.price q' _
                  ∙ ap (λ os. queue_offers l.price q' ++ os) r
                  ∙ w.remains,
            )
      ]

-- Matching as a walk over the offers of the opposite side.
pub record FollowsPriority (b : Book) (o : Order) (b' : Book) (r : MatchResult) : Type 0 where
  pub trades : map of_trade r.trades ≡ taken o o.quantity (offers (opposite b o.side))
  pub left_over : offers (opposite b' o.side) ≡ untaken o o.quantity (offers (opposite b o.side))

opposite-IsSide : (b : Book) (s : Side) → IsValid b → (d : Side) × IsSide d (opposite b s)
opposite-IsSide b buy v = (sell, v.asks_side)
opposite-IsSide b sell v = (buy, v.bids_side)

-- In a valid book, an order that is not refused as a fill-or-kill order trades exactly as a walk
-- over the offers of the opposite side does, the best price first and of one price the oldest
-- first, which takes the lesser of what it still needs and what is offered until it needs nothing
-- or meets a price beyond its limit: the same resting ids, prices and quantities in the same
-- order, and the same offers left.
pub match_incoming-FollowsPriority :
    (b : Book) (o : Order) (ts : Timestamp)
    → IsValid b
    → cannot_fill b o ≡ false
    → let (b', r) = match_incoming b o ts in FollowsPriority b o b' r
unfolding match_incoming run_match
match_incoming-FollowsPriority b o ts v h =
    let (d, side) = opposite-IsSide b o.side v in
    let (t, r) = match_against-taken b.symbol o ts d (opposite b o.side) (start b o) side in
    rw h (record { trades = t; left_over = rw opposite-with_opposite r })
