-- ===== src/L3Book/Valid/Resting.antt =====
-- An order that comes to rest keeps the invariant of the book.
use hft_sdk.Base.{
  All, [], arith, int_laws, lookup, lookup-insert, none, pos, refl, subst, ◌+◌, ◌<ℤ◌, ◌∷◌, ◌≡◌,
}
use hft_sdk.Types.{Order, OrderId, Price, Quantity, Side, Timestamp, buy, sell}
use hft_sdk.L3Book.{L3Order, Levels, Book}
use hft_sdk.L3Book.Levels.{push_level}
use hft_sdk.L3Book.Match.{opposite}
use hft_sdk.L3Book.Ops.{add_resting_order, push_side, resting_entry}
use hft_sdk.L3Book.Sides.{IsResting}
use hft_sdk.L3Book.Edits.{push_level-IsSide, push_level-prices}
use hft_sdk.L3Book.Locate.{occurs, locate}
use hft_sdk.L3Book.Reindex.{occurs-push_level, locate-push_level}
use hft_sdk.L3Book.Counts.{size-push_level}
use hft_sdk.L3Book.Valid.{IsValid, Uncrossed}
use hft_sdk.L3Book.Valid.Matching.{Clear}

locate-some : (s : Side) (i : OrderId) (ls : Levels) → locate s i ls ≡ none → occurs i ls ≡ 0
unfolding locate occurs
locate-some s i [] = λ e. refl
locate-some s i (l ∷ ls) = ground (arith, locate-some s i ls)

-- An id that the index does not know is nowhere.
pub absent-occurs :
    (b : Book) (i : OrderId)
    → IsValid b
    → lookup i b.order_index ≡ none
    → occurs i b.bids + occurs i b.asks ≡ 0
absent-occurs b i v e =
    ground (arith, v.indexed i, e, locate-some buy i b.bids, locate-some sell i b.asks)

resting_entry-IsResting :
    (o : Order) (remaining : Quantity) (ts : Timestamp)
    → pos 0 <ℤ remaining
    → IsResting o.side o.price (resting_entry o remaining ts)
resting_entry-IsResting o remaining ts h = record {
  side_eq = refl;
  price_eq = refl;
  shown = omega arith;
  held_back = omega arith;
  alive = omega int_laws;
}

Uncrossed-push_bid :
    (p : Price) (x : L3Order) (bids asks : Levels)
    → Clear buy p asks
    → Uncrossed bids asks
    → Uncrossed (push_level buy p x bids) asks
Uncrossed-push_bid p x bids [] c u = tt
Uncrossed-push_bid p x bids (a ∷ asks) c u = (
  push_level-prices buy p x (λ q. q <ℤ a.price) bids c.0 u.0,
  Uncrossed-push_bid p x bids asks c.1 u.1,
)

module _ (b : Book) (o : Order) (remaining : Quantity) (ts : Timestamp) (v : IsValid b)
    (h : pos 0 <ℤ remaining) (new_id : lookup o.id b.order_index ≡ none) where
  push_buy-IsValid :
      o.side ≡ buy
      → Clear buy o.price b.asks
      → IsValid (push_side buy b o (resting_entry o remaining ts))
  push_buy-IsValid e c = record {
    bids_side =
        push_level-IsSide buy o.price _ b.bids
          (subst (λ s. IsResting s o.price (resting_entry o remaining ts)) e
            (resting_entry-IsResting o remaining ts h))
          v.bids_side;
    asks_side = v.asks_side;
    unique = λ i. ground (
      arith,
      v.unique i,
      absent-occurs b o.id v new_id,
      occurs-push_level buy o.price (resting_entry o remaining ts) i b.bids,
    );
    indexed = λ i. ground (
      arith,
      e,
      v.indexed i,
      absent-occurs b o.id v new_id,
      lookup-insert o.id i (record { side = o.side; price = o.price; node = o.id }) b.order_index,
      occurs-push_level buy o.price (resting_entry o remaining ts) i b.bids,
      locate-push_level buy o.price (resting_entry o remaining ts) i b.bids,
    );
    bid_count =
        let n = size-push_level buy o.price (resting_entry o remaining ts) b.bids in
        omega (arith, v.bid_count);
    ask_count = v.ask_count;
    uncrossed = Uncrossed-push_bid o.price _ b.bids b.asks c v.uncrossed;
  }

  push_sell-IsValid :
      o.side ≡ sell
      → Clear sell o.price b.bids
      → IsValid (push_side sell b o (resting_entry o remaining ts))
  push_sell-IsValid e c = record {
    bids_side = v.bids_side;
    asks_side =
        push_level-IsSide sell o.price _ b.asks
          (subst (λ s. IsResting s o.price (resting_entry o remaining ts)) e
            (resting_entry-IsResting o remaining ts h))
          v.asks_side;
    unique = λ i. ground (
      arith,
      v.unique i,
      absent-occurs b o.id v new_id,
      occurs-push_level sell o.price (resting_entry o remaining ts) i b.asks,
    );
    indexed = λ i. ground (
      arith,
      e,
      v.indexed i,
      absent-occurs b o.id v new_id,
      lookup-insert o.id i (record { side = o.side; price = o.price; node = o.id }) b.order_index,
      occurs-push_level sell o.price (resting_entry o remaining ts) i b.asks,
      locate-push_level sell o.price (resting_entry o remaining ts) i b.asks,
    );
    bid_count = v.bid_count;
    ask_count =
        let n = size-push_level sell o.price (resting_entry o remaining ts) b.asks in
        omega (arith, v.ask_count);
    uncrossed =
        push_level-prices sell o.price _ (λ p. All (λ l. l.price <ℤ p) b.bids) b.asks c v.uncrossed;
  }

  push_side-IsValid :
      (d : Side)
      → o.side ≡ d
      → Clear d o.price (opposite b d)
      → IsValid (push_side d b o (resting_entry o remaining ts))
  push_side-IsValid buy = push_buy-IsValid
  push_side-IsValid sell = push_sell-IsValid

  pub add_resting_order-IsValid :
      Clear o.side o.price (opposite b o.side) → IsValid (add_resting_order b o remaining ts)
  unfolding add_resting_order
  add_resting_order-IsValid = push_side-IsValid o.side refl
