-- ===== src/OrderBook/Valid.antt =====
-- The invariant of the simple book of `order_book.cpp`: sorted sides without empty levels, and an index
-- whose iterators all point to nodes, of the order that they are indexed under.
pub mod Adding
pub mod Cancelling
pub mod Matching
pub mod Calls
use hft_sdk.Base.{
  All, Bool-cases, List, Option, [], ap, arith, eq_of_parts, false, if◌then◌else◌, inl, inr, length,
  lookup, none, refl, some, true, ℕ, ◌++◌, ◌<◌, ◌==ℤ◌, ◌∷◌, ◌≡◌, ◌≢◌, ◌⊎◌,
}
use hft_sdk.Types.{OrderId, Price, Side, Symbol, buy, sell}
use hft_sdk.OrderBook.{
  BookNode, PriceLevel, BookLocation, OrderIndex, OrderBook, new_order_book, comes_first,
  keep_filled, side_of, with_side,
}

-- Best price first and no price twice, and no empty level.
abbrev pub IsBookSide : Side → List PriceLevel → Type 0
IsBookSide s [] = Unit
IsBookSide s (l ∷ ls) =
    (l.queue ≢ []) × All (λ m. comes_first s l.price m.price ≡ true) ls × IsBookSide s ls

-- The nodes of a queue and of a side are numbered below `bound`, and a number tells the id of the order.
abbrev pub Owned : (ℕ → OrderId) → ℕ → List BookNode → Type 0
Owned owner bound q = All (λ n. (owner n.node ≡ n.order.id) × (n.node < bound)) q

abbrev pub SideOwned : (ℕ → OrderId) → ℕ → List PriceLevel → Type 0
SideOwned owner bound ls = All (λ l. Owned owner bound l.queue) ls

-- The node `it` is in the queue, and holds an order with the id.
abbrev pub Has : ℕ → OrderId → List BookNode → Type 0
Has it id [] = ⊥
Has it id (n ∷ q) = ((n.node ≡ it) × (n.order.id ≡ id)) ⊎ Has it id q

-- The level at price `p` holds it.
abbrev pub At : Price → ℕ → OrderId → List PriceLevel → Type 0
At p it id [] = ⊥
At p it id (l ∷ ls) = if l.price ==ℤ p then Has it id l.queue else At p it id ls

-- Every iterator of the index points to a node of its order.
abbrev pub Points : OrderIndex → OrderBook → Type 0
Points index b =
    (id : OrderId) (loc : BookLocation)
    → lookup id index ≡ some loc
    → At loc.price loc.it id (side_of b loc.side)

pub record IsValidBook (b : OrderBook) : Type 0 where
  pub owner : ℕ → OrderId
  pub sides : (s : Side) → IsBookSide s (side_of b s) × SideOwned owner b.next_node (side_of b s)
  pub points : Points b.order_index b

pub new_order_book-IsValidBook : (symbol : Symbol) → IsValidBook (new_order_book symbol)
unfolding lookup
new_order_book-IsValidBook symbol = record {
  owner = λ n. 0;
  sides = empty_side;
  points = λ id loc e. absurd (nothing id loc e);
}
  where
    empty_side :
        (s : Side)
        → IsBookSide s (side_of (new_order_book symbol) s)
          × SideOwned (λ n. 0) 0 (side_of (new_order_book symbol) s)
    empty_side buy = (tt, tt)
    empty_side sell = (tt, tt)

    nothing : (id : OrderId) (loc : BookLocation) → Path (Option BookLocation) none (some loc) → ⊥
    nothing id loc e = cc

pub Has-append_left :
    (it : ℕ) (id : OrderId) (q r : List BookNode) → Has it id q → Has it id (q ++ r)
Has-append_left it id [] r h = absurd h
Has-append_left it id (n ∷ q) r (inl e) = inl e
Has-append_left it id (n ∷ q) r (inr h) = inr (Has-append_left it id q r h)

pub Has-append_last : (n : BookNode) (q : List BookNode) → Has n.node n.order.id (q ++ n ∷ [])
Has-append_last n [] = inl (refl, refl)
Has-append_last n (m ∷ q) = inr (Has-append_last n q)

-- What a change of a queue keeps of the nodes, its level keeps.
pub At-keep_filled :
    (p r : Price) (it : ℕ) (id : OrderId) (q : List BookNode) (ls : List PriceLevel)
    → (if p ==ℤ r then Has it id q else At r it id ls)
    → At r it id (keep_filled p q ls)
At-keep_filled p r it id [] ls h = elim (Bool-cases (p ==ℤ r)) [
  | inl e ↦ absurd (rw e at h)
  | inr e ↦ rw e at h
]
At-keep_filled p r it id (n ∷ q) ls h = h

pub keep_filled-IsBookSide :
    (s : Side) (p : Price) (q : List BookNode) (ls : List PriceLevel)
    → All (λ m. comes_first s p m.price ≡ true) ls
    → IsBookSide s ls
    → IsBookSide s (keep_filled p q ls)
keep_filled-IsBookSide s p [] ls a v = v
keep_filled-IsBookSide s p (n ∷ q) ls a v = ((λ e. omega (arith, ap length e)), a, v)

pub All-keep_filled :
    (P : PriceLevel → Type 0) (p : Price) (q : List BookNode) (ls : List PriceLevel)
    → ((n : BookNode) (r : List BookNode) → q ≡ n ∷ r → P (record { price = p; queue = n ∷ r }))
    → All P ls
    → All P (keep_filled p q ls)
All-keep_filled P p [] ls f a = a
All-keep_filled P p (n ∷ q) ls f a = (f n q refl, a)

pub comes_first_ne : (s : Side) (p q : Price) → comes_first s p q ≡ true → (q ==ℤ p) ≡ false
comes_first_ne buy p q h = ground arith
comes_first_ne sell p q h = ground arith

pub comes_first_trans :
    (s : Side) (p q r : Price)
    → comes_first s p q ≡ true
    → comes_first s q r ≡ true
    → comes_first s p r ≡ true
comes_first_trans buy p q r h k = ground arith
comes_first_trans sell p q r h k = ground arith

pub comes_first_eq :
    (s : Side) (p q : Price) → comes_first s p q ≡ false → comes_first s q p ≡ false → q ≡ p
comes_first_eq buy p q h k = eq_of_parts q p (ground arith)
comes_first_eq sell p q h k = eq_of_parts q p (ground arith)

-- At a price that comes first there is no level.
pub At-first :
    (s : Side) (p : Price) (it : ℕ) (id : OrderId) (ls : List PriceLevel)
    → All (λ m. comes_first s p m.price ≡ true) ls
    → At p it id ls
    → ⊥
At-first s p it id [] a h = h
At-first s p it id (l ∷ ls) a h =
    let ne = comes_first_ne s p l.price a.0 in At-first s p it id ls a.1 (rw ne at h)

pub Side-cases : (d s : Side) → (d ≡ s) ⊎ (d ≢ s)
Side-cases buy buy = inl refl
Side-cases buy sell = inr (λ e. cc)
Side-cases sell buy = inr (λ e. cc)
Side-cases sell sell = inl refl

-- Where an iterator points after the levels `ls` were written to the side `d`.
abbrev pub Placed : Side → List PriceLevel → OrderBook → OrderId → BookLocation → Type 0
Placed d ls b id loc =
    ((d ≡ loc.side) × At loc.price loc.it id ls)
    ⊎ ((d ≢ loc.side) × At loc.price loc.it id (side_of b loc.side))

module _ (b : OrderBook) (ls : List PriceLevel) (index : OrderIndex) (bound : ℕ) where
  abbrev written : Side → OrderBook
  written d = with_side d ls (record b { order_index = index; next_node = bound })

  written-At :
      (d s : Side) (p : Price) (it : ℕ) (id : OrderId)
      → ((d ≡ s) × At p it id ls) ⊎ ((d ≢ s) × At p it id (side_of b s))
      → At p it id (side_of (written d) s)
  written-At buy buy p it id (inl h) = h.1
  written-At buy buy p it id (inr h) = absurd (h.0 refl)
  written-At buy sell p it id (inl h) = let e = h.0 in absurd cc
  written-At buy sell p it id (inr h) = h.1
  written-At sell buy p it id (inl h) = let e = h.0 in absurd cc
  written-At sell buy p it id (inr h) = h.1
  written-At sell sell p it id (inl h) = h.1
  written-At sell sell p it id (inr h) = absurd (h.0 refl)

  written-sides :
      (P : Side → List PriceLevel → Type 0) (d s : Side)
      → P d ls
      → P s (side_of b s)
      → P s (side_of (written d) s)
  written-sides P buy buy h k = h
  written-sides P buy sell h k = k
  written-sides P sell buy h k = k
  written-sides P sell sell h k = h

  written_fields : (d : Side) → ((written d).order_index ≡ index) × ((written d).next_node ≡ bound)
  written_fields buy = (refl, refl)
  written_fields sell = (refl, refl)

-- A book whose side `d` and index were written.
pub with_side-IsValidBook :
    (b : OrderBook) (d : Side) (ls : List PriceLevel) (index : OrderIndex) (bound : ℕ)
    (owner : ℕ → OrderId)
    → IsBookSide d ls × SideOwned owner bound ls
    → ((s : Side) → IsBookSide s (side_of b s) × SideOwned owner bound (side_of b s))
    → ((id : OrderId) (loc : BookLocation) → lookup id index ≡ some loc → Placed d ls b id loc)
    → IsValidBook (with_side d ls (record b { order_index = index; next_node = bound }))
with_side-IsValidBook b d ls index bound owner side sides placed =
    let (i, n) = written_fields b ls index bound d in
    record {
      owner = owner;
      sides = λ s. rw n (
          written-sides b ls index bound (λ t l. IsBookSide t l × SideOwned owner bound l) d s side
            (sides s));
      points = λ id loc e.
          written-At b ls index bound d loc.side loc.price loc.it id (placed id loc (rw i at e));
    }
