-- ===== src/L3Book/Valid/Matching.antt =====
-- Matching keeps the invariant of the book.
use hft_sdk.Base.{
  All, All-map, Bool-cases, [], ap, arith, false, inl, inr, lookup, lt→ltb_ℤ, none, pos, refl, true,
  u64_mod, ◌%◌, ◌<ℤ◌, ◌∙◌, ◌∷◌, ◌≡◌,
}
use hft_sdk.Types.{Order, OrderId, Price, Side, Symbol, Timestamp, buy, is_limit, sell}
use hft_sdk.L3Book.{Levels, Book}
use hft_sdk.L3Book.Match.{
  is_fok, match_against, match_incoming, run_match, cannot_fill, start, opposite, with_opposite,
  breaks_at,
}
use hft_sdk.L3Book.Fills.{ledger-with_opposite, opposite-with_opposite}
use hft_sdk.L3Book.Steps.{Blocked, match_against_exhausts}
use hft_sdk.L3Book.Sides.{IsSide, match_against-IsSide, match_against-prices}
use hft_sdk.L3Book.Locate.{occurs, locate-none, Tracks, match_against-Tracks, match_against-locate}
use hft_sdk.L3Book.Counts.{size, other, CountsAt, match_against-Counts}
use hft_sdk.L3Book.Valid.{IsValid}

module _ (b : Book) (v : IsValid b) (o : Order) (ts : Timestamp) where
  asks_matched :
      let (ls, s) = match_against b.symbol o ts b.asks (start b o) in
      IsValid (record b { asks = ls; ledger = s.ledger })
  asks_matched = record {
    bids_side = v.bids_side;
    asks_side = match_against-IsSide b.symbol o ts sell b.asks (start b o) v.asks_side;
    unique = λ i. let t = tracks i in omega (arith, v.unique i, t.fewer);
    indexed = λ i. ground (
      arith,
      v.unique i,
      v.indexed i,
      tracks i,
      match_against-locate b.symbol o ts i sell b.asks (start b o),
      locate-none sell i b.asks,
    );
    bid_count = counts.there ∙ v.bid_count;
    ask_count =
        counts.here 0 (v.ask_count ∙ ap (λ n. n % u64_mod) (omega arith))
        ∙ ap (λ n. n % u64_mod) (omega arith);
    uncrossed =
        match_against-prices b.symbol o ts (λ p. All (λ l. l.price <ℤ p) b.bids) b.asks (start b o)
          v.uncrossed;
  }
    where
      tracks :
          (i : OrderId)
          → let (ls, s) = match_against b.symbol o ts b.asks (start b o) in
            Tracks (occurs i b.asks) (lookup i b.order_index) (occurs i ls) (lookup i s.order_index)
      tracks i = match_against-Tracks b.symbol o ts i b.asks (start b o)

      counts :
          CountsAt b.symbol o ts sell
            (size b.asks)
            (start b o)
            (size (match_against b.symbol o ts b.asks (start b o)).0)
            (match_against b.symbol o ts b.asks (start b o)).1
      counts = match_against-Counts b.symbol o ts sell b.asks (start b o) v.asks_side

  bids_matched :
      let (ls, s) = match_against b.symbol o ts b.bids (start b o) in
      IsValid (record b { bids = ls; ledger = s.ledger })
  bids_matched = record {
    bids_side = match_against-IsSide b.symbol o ts buy b.bids (start b o) v.bids_side;
    asks_side = v.asks_side;
    unique = λ i. let t = tracks i in omega (arith, v.unique i, t.fewer);
    indexed = λ i. ground (
      arith,
      v.unique i,
      v.indexed i,
      tracks i,
      match_against-locate b.symbol o ts i buy b.bids (start b o),
      locate-none buy i b.bids,
      locate-none sell i b.asks,
    );
    bid_count =
        counts.here 0 (v.bid_count ∙ ap (λ n. n % u64_mod) (omega arith))
        ∙ ap (λ n. n % u64_mod) (omega arith);
    ask_count = counts.there ∙ v.ask_count;
    uncrossed =
        All-map _ _ b.asks
          (λ a. match_against-prices b.symbol o ts (λ p. p <ℤ a.price) b.bids (start b o))
          v.uncrossed;
  }
    where
      tracks :
          (i : OrderId)
          → let (ls, s) = match_against b.symbol o ts b.bids (start b o) in
            Tracks (occurs i b.bids) (lookup i b.order_index) (occurs i ls) (lookup i s.order_index)
      tracks i = match_against-Tracks b.symbol o ts i b.bids (start b o)

      counts :
          let (ls, s) = match_against b.symbol o ts b.bids (start b o) in
          CountsAt b.symbol o ts buy (size b.bids) (start b o) (size ls) s
      counts = match_against-Counts b.symbol o ts buy b.bids (start b o) v.bids_side

-- The book after the loops, for an order of side `d`.
matched-IsValid :
    (d : Side) (b : Book) (o : Order) (ts : Timestamp)
    → IsValid b
    → let (ls, s) = match_against b.symbol o ts (opposite b d) (start b o) in
      IsValid (with_opposite b d ls s.ledger)
matched-IsValid buy b o ts v = asks_matched b v o ts
matched-IsValid sell b o ts v = bids_matched b v o ts

pub match_incoming-IsValid :
    (b : Book) (o : Order) (ts : Timestamp) → IsValid b → IsValid (match_incoming b o ts).0
unfolding match_incoming run_match
match_incoming-IsValid b o ts v = elim (Bool-cases (cannot_fill b o)) [
  | inl e ↦ rw e v
  | inr e ↦ rw e (matched-IsValid o.side b o ts v)
]

-- An id that is not in the index is not there after matching either.
pub match_incoming-absent :
    (b : Book) (o : Order) (ts : Timestamp) (i : OrderId)
    → lookup i b.order_index ≡ none
    → lookup i (match_incoming b o ts).0.order_index ≡ none
unfolding match_incoming run_match
match_incoming-absent b o ts i e = elim (Bool-cases (cannot_fill b o)) [
  | inl f ↦ rw f e
  | inr f ↦
      let t = match_against-Tracks b.symbol o ts i (opposite b o.side) (start b o) in
      rw f (rw ledger-with_opposite (ground (arith, t)))
]

-- The prices that an incoming order of side `d` with limit `p` may not reach.
abbrev pub Clear : Side → Price → Levels → Type 0
Clear buy p asks = All (λ l. p <ℤ l.price) asks
Clear sell p bids = All (λ l. l.price <ℤ p) bids

Blocked-Clear :
    (symbol : Symbol) (o : Order) (ts : Timestamp) (d : Side) (ls : Levels)
    → o.side ≡ d
    → is_limit o.type ≡ true
    → IsSide (other d) ls
    → Blocked symbol o ts ls
    → Clear d o.price ls
unfolding breaks_at
Blocked-Clear symbol o ts buy [] e f i h = tt
Blocked-Clear symbol o ts buy (l ∷ ls) e f i h =
    (ground arith, All-map _ _ ls (λ m k. ground arith) i.2)
Blocked-Clear symbol o ts sell [] e f i h = tt
Blocked-Clear symbol o ts sell (l ∷ ls) e f i h =
    (ground arith, All-map _ _ ls (λ m k. ground arith) i.2)

matched-Clear :
    (d : Side) (b : Book) (o : Order) (ts : Timestamp)
    → IsValid b
    → o.side ≡ d
    → is_limit o.type ≡ true
    → let (ls, s) = match_against b.symbol o ts (opposite b d) (start b o) in
      pos 0 <ℤ s.remaining → Clear d o.price ls
matched-Clear buy b o ts v e f h =
    Blocked-Clear b.symbol o ts buy _ e f
      (match_against-IsSide b.symbol o ts sell b.asks (start b o) v.asks_side)
      (match_against_exhausts b.symbol o ts b.asks (start b o) (lt→ltb_ℤ _ _ h))
matched-Clear sell b o ts v e f h =
    Blocked-Clear b.symbol o ts sell _ e f
      (match_against-IsSide b.symbol o ts buy b.bids (start b o) v.bids_side)
      (match_against_exhausts b.symbol o ts b.bids (start b o) (lt→ltb_ℤ _ _ h))

-- In a valid book, a limit order that is not fill-or-kill and has quantity remaining after
-- matching leaves no price on the opposite side within its limit.
pub match_incoming-Clear :
    (b : Book) (o : Order) (ts : Timestamp)
    → IsValid b
    → is_limit o.type ≡ true
    → is_fok o.tif ≡ false
    → let (b', r) = match_incoming b o ts in
      pos 0 <ℤ r.remaining_qty → Clear o.side o.price (opposite b' o.side)
unfolding match_incoming run_match cannot_fill
match_incoming-Clear b o ts v e f =
    rw f (rw opposite-with_opposite (matched-Clear o.side b o ts v refl e))
