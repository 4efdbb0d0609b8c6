-- ===== src/L3Book/Valid/Cancelling.antt =====
-- A cancellation keeps the invariant, and never reads through a dangling iterator.
use hft_sdk.Base.{
  All, All-map, Bool-cases, List, Option, Option-cases, [], arith, erase, inl, inr, int_laws,
  lookup, lookup-erase, ltb, none, pos, refl, some, some-injective, subst, sym, ◌+ℤ◌, ◌-ℤ◌, ◌<ℤ◌,
  ◌==ℤ◌, ◌==◌, ◌∷◌, ◌≡◌, ◌≢◌, ◌⊎◌,
}
use hft_sdk.Types.{ExecutionReport, OrderId, Price, Side, Timestamp, buy, canceled, rejected, sell}
use hft_sdk.L3Book.{L3Order, Levels, Location, Book, BookEvent, on_top_of_book}
use mathlib.Core.List.{Mem, mem-cons_self, mem-cons_of_mem}
use hft_sdk.L3Book.Levels.{erase_order, find_level, find_node}
use hft_sdk.L3Book.Match.{count_down}
use hft_sdk.L3Book.Query.{deref, side_levels, top_of_book}
use hft_sdk.L3Book.Ops.{erase_side, cancel_order, remove_at}
use hft_sdk.L3Book.Edits.{erase_order-IsSide, erase_order-prices}
use hft_sdk.L3Book.Locate.{occurs, locate-none}
use hft_sdk.L3Book.Reindex.{Found, locate-Found, find_node-some, Erased, erase_order-Erased}
use hft_sdk.L3Book.Valid.{IsValid, Uncrossed}

-- A location of the index is that of an order on its side.
pub indexed-Found :
    (b : Book) (i : OrderId) (loc : Location)
    → IsValid b
    → lookup i b.order_index ≡ some loc
    → Found loc.side i (side_levels b loc.side) loc
indexed-Found b i loc v e = elim (Bool-cases (ltb 0 (occurs i b.bids))) [
  | inl f ↦
      let g = locate-Found buy i b.bids loc v.bids_side (ground (arith, v.indexed i)) in
      subst (λ s. Found s i (side_levels b s) loc) (sym g.side_eq) g
  | inr f ↦
      let g = locate-Found sell i b.asks loc v.asks_side (ground (arith, v.indexed i)) in
      subst (λ s. Found s i (side_levels b s) loc) (sym g.side_eq) g
]

-- The iterator of an indexed order points to the node of that order.
pub deref-some :
    (b : Book) (i : OrderId) (loc : Location)
    → IsValid b
    → lookup i b.order_index ≡ some loc
    → (o : L3Order) × (deref b loc ≡ some o) × (o.id ≡ i)
unfolding deref
deref-some b i loc v e =
    let g = indexed-Found b i loc v e in
    let n = find_node-some i g.queue g.holds in
    (n.0, rw (g.at_level, deref) (rw g.node_eq n.1), n.2)

Uncrossed-erase_bid :
    (p : Price) (i : OrderId) (bids asks : Levels)
    → Uncrossed bids asks
    → Uncrossed (erase_order p i bids) asks
Uncrossed-erase_bid p i bids asks u =
    All-map _ _ asks (λ a. erase_order-prices (λ q. q <ℤ a.price) p i bids) u

remove_bid-IsValid :
    (b : Book) (i : OrderId) (loc : Location)
    → IsValid b
    → Found buy i b.bids loc
    → IsValid (record b {
      bids = erase_order loc.price i b.bids;
      ledger = record (count_down buy b.ledger) { order_index = erase i b.order_index };
    })
remove_bid-IsValid b i loc v g = record {
  bids_side = erase_order-IsSide buy loc.price i b.bids v.bids_side;
  asks_side = v.asks_side;
  unique = λ j. let x = erased j in omega (arith, v.unique j, x.occurs_less);
  indexed = λ j. ground (
    arith,
    v.unique j,
    v.indexed j,
    lookup-erase i j b.order_index,
    erased j,
    locate-none buy j (erase_order loc.price i b.bids),
    locate-none sell j b.asks,
  );
  bid_count = let x = erased i in omega (arith, x.size_less, v.bid_count);
  ask_count = v.ask_count;
  uncrossed = Uncrossed-erase_bid loc.price i b.bids b.asks v.uncrossed;
}
  where
    erased : (j : OrderId) → Erased buy i j b.bids (erase_order loc.price i b.bids)
    erased j = erase_order-Erased buy i j loc.price g.queue b.bids g.at_level g.holds

remove_ask-IsValid :
    (b : Book) (i : OrderId) (loc : Location)
    → IsValid b
    → Found sell i b.asks loc
    → IsValid (record b {
      asks = erase_order loc.price i b.asks;
      ledger = record (count_down sell b.ledger) { order_index = erase i b.order_index };
    })
remove_ask-IsValid b i loc v g = record {
  bids_side = v.bids_side;
  asks_side = erase_order-IsSide sell loc.price i b.asks v.asks_side;
  unique = λ j. let x = erased j in omega (arith, v.unique j, x.occurs_less);
  indexed = λ j. ground (
    arith,
    v.unique j,
    v.indexed j,
    lookup-erase i j b.order_index,
    erased j,
    locate-none sell j (erase_order loc.price i b.asks),
    locate-none buy j b.bids,
  );
  bid_count = v.bid_count;
  ask_count = let x = erased i in omega (arith, x.size_less, v.ask_count);
  uncrossed =
      erase_order-prices (λ p. All (λ l. l.price <ℤ p) b.bids) loc.price i b.asks v.uncrossed;
}
  where
    erased : (j : OrderId) → Erased sell i j b.asks (erase_order loc.price i b.asks)
    erased j = erase_order-Erased sell i j loc.price g.queue b.asks g.at_level g.holds

remove_at-IsValid :
    (b : Book) (i : OrderId) (loc : Location)
    → IsValid b
    → Found loc.side i (side_levels b loc.side) loc
    → IsValid (remove_at b i loc)
unfolding remove_at
remove_at-IsValid b i loc v g = rw g.node_eq (by_side loc.side g)
  where
    by_side :
        (d : Side)
        → Found d i (side_levels b d) loc
        → IsValid (
            let b' = erase_side d b loc.price i in
            record b' {
              ledger = record (count_down d b.ledger) { order_index = erase i b.order_index };
            })
    by_side buy h = remove_bid-IsValid b i loc v h
    by_side sell h = remove_ask-IsValid b i loc v h

order_index-remove_at :
    (b : Book) (i : OrderId) (loc : Location)
    → (remove_at b i loc).order_index ≡ erase i b.order_index
unfolding remove_at
order_index-remove_at b i loc = refl

-- The order stands in the queue of a level.
abbrev pub StandsIn : L3Order → Levels → Type 0
StandsIn o [] = ⊥
StandsIn o (l ∷ ls) = Mem o l.queue ⊎ StandsIn o ls

-- What the report of a cancellation says of the order that it cancels.
pub record Describes (b : Book) (o : L3Order) (ts : Timestamp) (rpt : ExecutionReport)
    : Type 0 where
  pub canceled_now : (rpt.status ≡ canceled) × (rpt.transact_time ≡ ts)
  pub of_order :
      (rpt.order_id ≡ o.id) × (rpt.trader_id ≡ o.trader_id) × (rpt.cl_ord_id ≡ o.cl_ord_id)
  pub terms : (rpt.symbol ≡ b.symbol) × (rpt.side ≡ o.side) × (rpt.price ≡ o.price)
  pub filled_of_it : rpt.filled_qty ≡ o.filled_qty
  pub had_open : rpt.order_qty -ℤ rpt.filled_qty ≡ o.visible_qty +ℤ o.hidden_qty
  pub none_left : rpt.leaves_qty ≡ pos 0

-- A cancelled order: it rested and is gone, the others are where they were, the report describes it,
-- and the top of the new book is published.
pub record Cancelled (b : Book) (i : OrderId) (ts : Timestamp) (b' : Book) (rpt : ExecutionReport)
    (events : List BookEvent) : Type 0 where
  pub order : L3Order
  pub rested : (order.id ≡ i) × (StandsIn order b.bids ⊎ StandsIn order b.asks)
  pub was_there : lookup i b.order_index ≢ none
  pub valid : IsValid b'
  pub gone : lookup i b'.order_index ≡ none
  pub others : (j : OrderId) → i ≢ j → lookup j b'.order_index ≡ lookup j b.order_index
  pub reported : Describes b order ts rpt
  pub published : events ≡ on_top_of_book (top_of_book b' ts) ∷ []

-- An unknown id: nothing changes.
pub record Refused (b : Book) (i : OrderId) (b' : Book) (rpt : ExecutionReport)
    (events : List BookEvent) : Type 0 where
  pub was_absent : lookup i b.order_index ≡ none
  pub unchanged : b' ≡ b
  pub reported : (rpt.status ≡ rejected) × (rpt.order_id ≡ i)
  pub silent : events ≡ []

find_node-Mem : (i : OrderId) (q : List L3Order) (o : L3Order) → find_node i q ≡ some o → Mem o q
unfolding find_node
find_node-Mem i [] o e = absurd cc
find_node-Mem i (x ∷ q) o e = elim (Bool-cases (x.id == i)) [
  | inl f ↦
      let h : Path (Option L3Order) (some x) (some o) = rw f at e in
      subst (λ y. Mem y (x ∷ q)) (some-injective _ _ h) mem-cons_self
  | inr f ↦ let h : find_node i q ≡ some o = rw f at e in mem-cons_of_mem x (find_node-Mem i q o h)
]

find_level-StandsIn :
    (p : Price) (ls : Levels) (q : List L3Order) (o : L3Order)
    → find_level p ls ≡ some q
    → Mem o q
    → StandsIn o ls
unfolding find_level
find_level-StandsIn p [] q o e h = absurd cc
find_level-StandsIn p (l ∷ ls) q o e h = elim (Bool-cases (l.price ==ℤ p)) [
  | inl f ↦
      let g : Path (Option (List L3Order)) (some l.queue) (some q) = rw f at e in
      inl (subst (Mem o) (sym (some-injective _ _ g)) h)
  | inr f ↦ let g : find_level p ls ≡ some q = rw f at e in inr (find_level-StandsIn p ls q o g h)
]

-- The order of an indexed id rests.
indexed-StandsIn :
    (b : Book) (i : OrderId) (loc : Location) (o : L3Order)
    → IsValid b
    → lookup i b.order_index ≡ some loc
    → deref b loc ≡ some o
    → StandsIn o b.bids ⊎ StandsIn o b.asks
unfolding deref
indexed-StandsIn b i loc o v e d =
    let g = indexed-Found b i loc v e in
    let n : find_node loc.node g.queue ≡ some o = rw (g.at_level, deref) at d in
    on_either loc.side (
      find_level-StandsIn loc.price (side_levels b loc.side) g.queue o g.at_level
        (find_node-Mem loc.node g.queue o n))
  where
    on_either : (s : Side) → StandsIn o (side_levels b s) → StandsIn o b.bids ⊎ StandsIn o b.asks
    on_either buy h = inl h
    on_either sell h = inr h

-- `none`, a read through a dangling iterator, is no outcome.
abbrev pub CancelOutcome :
    Book → OrderId → Timestamp → Option (Book × ExecutionReport × List BookEvent) → Type 0
CancelOutcome b i ts none = ⊥
CancelOutcome b i ts (some (b', rpt, events)) =
    Refused b i b' rpt events ⊎ Cancelled b i ts b' rpt events

-- In a valid book a cancellation returns: of an id that is not indexed it is rejected, changes
-- nothing and calls no callback; of an id that is indexed an order with the id stood in a queue of
-- the book, and the report gives its id, trader, client id, side and price, the symbol and the
-- time, as filled what was filled of it and beyond that what it had open, and nothing as left; the
-- book that it leaves is valid, has the id no more and every other id where it was, and its top is
-- published.
pub cancel_order-CancelOutcome :
    (b : Book) (i : OrderId) (ts : Timestamp)
    → IsValid b
    → CancelOutcome b i ts (cancel_order b i ts)
unfolding cancel_order
cancel_order-CancelOutcome b i ts v = elim (Option-cases (lookup i b.order_index)) [
  | inl e ↦
      rw (e, cancel_order)
        (inl (record { was_absent = e; unchanged = refl; reported = (refl, refl); silent = refl }))
  | inr (loc, e) ↦
      let d = deref-some b i loc v e in
      rw (e, cancel_order)
        (rw (d.1, cancel_order)
          (inr (record {
            order = d.0;
            rested = (d.2, indexed-StandsIn b i loc d.0 v e d.1);
            was_there = λ f. cc;
            valid = remove_at-IsValid b i loc v (indexed-Found b i loc v e);
            gone =
                rw (order_index-remove_at b i loc) (ground (arith, lookup-erase i i b.order_index));
            others = λ j ne.
                rw (order_index-remove_at b i loc) (ground (arith, lookup-erase i j b.order_index));
            reported = record {
              canceled_now = (refl, refl);
              of_order = (sym d.2, refl, refl);
              terms = (refl, refl, refl);
              filled_of_it = refl;
              had_open = omega int_laws;
              none_left = refl;
            };
            published = refl;
          })))
]
