-- ===== src/L3Book/Levels.antt =====
-- The price levels of one side as `std::map<Price, OrderQueue>`: the queue at a key, the insertion
-- at a key in order, and the erasure; then the queue operations of `cancel_order` and
-- `update_queue_positions`.
use hft_sdk.Base.{
  Bool, List, Option, [], if◌then◌else◌, length, ltb_ℤ, none, some, u32_mod, ℕ, ◌%◌, ◌++◌, ◌+◌,
  ◌==ℤ◌, ◌==◌, ◌∷◌,
}
use hft_sdk.Types.{OrderId, Price, Side, buy, sell}
use hft_sdk.L3Book.{L3Order, Level, Levels}

-- The order of the keys: `std::greater` for the bids, `std::less` for the asks.
abbrev pub before : Side → Price → Price → Bool
before buy p q = ltb_ℤ q p
before sell p q = ltb_ℤ p q

abbrev pub level : Price → List L3Order → Level
level p q = record { price = p; queue = q }

-- `levels.find(p)`.
unfoldable pub find_level : Price → Levels → Option (List L3Order)
find_level p [] = none
find_level p (l ∷ ls) = if l.price ==ℤ p then some l.queue else find_level p ls

-- The node goes to the end of the queue, and learns its position there.
abbrev pub enqueue : L3Order → List L3Order → List L3Order
enqueue o q = q ++ record o { queue_pos = length q % u32_mod } ∷ []

-- `levels[p].push_back(o)`: a missing level is created at its place in the order of the keys.
unfoldable pub push_level : Side → Price → L3Order → Levels → Levels
push_level s p o [] = level p (enqueue o []) ∷ []
push_level s p o (l ∷ ls) =
    if before s p l.price
    then level p (enqueue o []) ∷ l ∷ ls
    else if before s l.price p
    then l ∷ push_level s p o ls
    else level l.price (enqueue o l.queue) ∷ ls

-- The queue at the key `p` is written.
unfoldable pub set_level : Price → List L3Order → Levels → Levels
set_level p q [] = []
set_level p q (l ∷ ls) = if l.price ==ℤ p then level l.price q ∷ ls else l ∷ set_level p q ls

-- `levels.erase(level_it)`.
unfoldable pub erase_level : Price → Levels → Levels
erase_level p [] = []
erase_level p (l ∷ ls) = if l.price ==ℤ p then ls else l ∷ erase_level p ls

-- `*it`, in the queue that holds the node.
unfoldable pub find_node : OrderId → List L3Order → Option L3Order
find_node i [] = none
find_node i (o ∷ q) = if o.id == i then some o else find_node i q

-- `queue.erase(it)`.
unfoldable pub erase_node : OrderId → List L3Order → List L3Order
erase_node i [] = []
erase_node i (o ∷ q) = if o.id == i then q else o ∷ erase_node i q

-- `for (auto& o : queue) o.queue_pos = pos++`.
unfoldable pub renumber : ℕ → List L3Order → List L3Order
renumber n [] = []
renumber n (o ∷ q) = record o { queue_pos = n } ∷ renumber ((n + 1) % u32_mod) q

unfoldable pub update_queue_positions : Price → Levels → Levels
update_queue_positions p ls = elim (find_level p ls) [
  | none ↦ ls
  | some q ↦ set_level p (renumber 0 q) ls
]

-- The level after the erasure of a node: without nodes it goes, else its nodes are numbered.
unfoldable pub refresh_level : Price → List L3Order → Levels → Levels
refresh_level p [] ls = erase_level p ls
refresh_level p (o ∷ q) ls = update_queue_positions p (set_level p (o ∷ q) ls)

-- The part of `cancel_order` that takes the node out of its side.
unfoldable pub erase_order : Price → OrderId → Levels → Levels
erase_order p i ls = elim (find_level p ls) [
  | none ↦ ls
  | some q ↦ refresh_level p (erase_node i q) ls
]
