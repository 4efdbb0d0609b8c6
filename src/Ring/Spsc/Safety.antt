-- ===== src/Ring/Spsc/Safety.antt =====
-- What the interleavings of `HPRingBuffer.hpp` promise to the two threads.
use hft_sdk.Base.{
  List, [], ap, arith, drop, get_or, length, refl, suc, sym, ℕ, ◌%◌, ◌++◌, ◌+◌, ◌-◌, ◌<◌, ◌∙◌, ◌∷◌,
  ◌≡◌, ◌≢◌, ◌≤◌,
}
use hft_sdk.Ring.Slots.{IsSize, same_slot, slot_of_sequence}
use hft_sdk.Ring.Queue.{put_slot}
use hft_sdk.Ring.Spsc.{found_room, found_item, Machine, Reach}
use hft_sdk.Ring.Spsc.Invariant.{Inv, knows_producer, knows_consumer, Reach-Inv}

cong_cons :
    {A : Type 0} {x y : A} {xs ys : List A} → x ≡ y → xs ≡ ys → ◌≡◌ {A = List A} (x ∷ xs) (y ∷ ys)
cong_cons e f = rw (e, f) refl

-- A list that agrees with the start of another one.
split_prefix :
    {A : Type 0} (xs ys : List A) (d : A)
    → length xs ≤ length ys
    → ((k : ℕ) → k < length xs → get_or xs k d ≡ get_or ys k d)
    → (ys ≡ xs ++ drop (length xs) ys) × (length xs + length (drop (length xs) ys) ≡ length ys)
split_prefix [] ys d h f = (refl, omega arith)
split_prefix (x ∷ xs) [] d h f = absurd (omega arith)
split_prefix (x ∷ xs) (y ∷ ys) d h f =
    let (e, l) = split_prefix xs ys d (omega arith) (λ k i. f (suc k) (omega arith)) in
    (cong_cons (sym (f 0 (omega arith))) e, omega (arith, l))

module _ {A : Type 0} (size : ℕ) (blank : A) where
  -- What was received, and what is still on its way.
  pub record Delivered (m : Machine A) : Type 0 where
    pub on_way : List A
    pub in_order : m.sent ≡ m.received ++ on_way
    pub few : length on_way ≤ size - 1

  pub Inv-Delivered : (m : Machine A) → Inv size blank m → Delivered m
  Inv-Delivered m i =
      let (e, l) = split_prefix m.received m.sent blank i.holds.order i.prefix in
      let room = i.holds.room in
      record { on_way = drop (length m.received) m.sent; in_order = e; few = omega (arith, l) }

  -- On a ring of a size that is a power of two, in every interleaving of the memory accesses of
  -- one producer and one consumer, what was received is what was sent first, in order and without
  -- loss or duplicate, and at most one item less than the size is on its way; the sequences may
  -- wrap around.
  pub Reach-Delivered : {m : Machine A} → IsSize size → Reach size blank m → Delivered m
  Reach-Delivered {m} z r = Inv-Delivered m (Reach-Inv size blank z r)

  -- On a ring of a size that is a power of two, in every interleaving, a producer that is about to
  -- write a slot and a consumer that is about to read one are at different slots.
  pub Reach-slots :
      {m : Machine A} (x : A) (ws rs : ℕ)
      → IsSize size
      → Reach size blank m
      → m.producer ≡ found_room x ws
      → m.consumer ≡ found_item rs
      → ws % size ≢ rs % size
  Reach-slots {m} x ws rs z r p c e =
      let i = Reach-Inv size blank z r in
      let n = length m.received in
      let (k, l) = knows_producer size blank m (found_room x ws) i p in
      let (j, g) = knows_consumer size blank m (found_item rs) i c in
      let sw : ws % size ≡ length m.sent % size =
        ap (λ q. q % size) k ∙ put_slot size blank m.ring m.sent n z i.holds in
      let sr : rs % size ≡ n % size =
        ap (λ q. q % size) (j ∙ i.holds.read) ∙ slot_of_sequence size n z in
      let order = i.holds.order in
      let big = z.at_least in
      let q = same_slot size n (length m.sent) (omega arith) (omega arith) (sym sr ∙ sym e ∙ sw) in
      absurd (omega arith)
