-- ===== src/MemoryPool/Threads/Invariant.antt =====
-- The free list of the pool under two threads, for `memory_pool.hpp`.
use hft_sdk.Base.{
  Bool-cases, List, [], ap, arith, get_or-set_ne, get_or-set_self, inl, inr, length, ltb, refl, set,
  subst, suc, true, ℕ, ◌+◌, ◌<◌, ◌==◌, ◌∙◌, ◌∷◌, ◌≡◌, ◌≢◌, ◌≤◌, ◌⊎◌,
}
use hft_sdk.MemoryPool.{Slot, no_slot, MemoryPool, slot_at}
use hft_sdk.MemoryPool.Free.{Chain, occurs, one_if, used}
use hft_sdk.MemoryPool.Threads.{
  Allocator, allocator_idle, loaded_head, loaded_next, took_slot, marked_slot, Deallocator,
  deallocator_idle, given_slot, checked_slot, assertion_failed, cleared_slot, got_head, linked_slot,
  pushed_slot, PoolMachine, has, drop_one,
}

-- The slot that a thread has in its hands, and whether the slot is marked.
abbrev pub allocator_hand : Allocator → List ℕ
allocator_hand allocator_idle = []
allocator_hand (loaded_head h) = []
allocator_hand (loaded_next h n) = []
allocator_hand (took_slot h) = h ∷ []
allocator_hand (marked_slot h) = h ∷ []

abbrev pub allocator_marks : Allocator → List ℕ
allocator_marks allocator_idle = []
allocator_marks (loaded_head h) = []
allocator_marks (loaded_next h n) = []
allocator_marks (took_slot h) = []
allocator_marks (marked_slot h) = h ∷ []

abbrev pub deallocator_hand : Deallocator → List ℕ
deallocator_hand deallocator_idle = []
deallocator_hand (given_slot i) = i ∷ []
deallocator_hand (checked_slot i) = i ∷ []
deallocator_hand assertion_failed = []
deallocator_hand (cleared_slot i) = i ∷ []
deallocator_hand (got_head i h) = i ∷ []
deallocator_hand (linked_slot i h) = i ∷ []
deallocator_hand pushed_slot = []

abbrev pub deallocator_marks : Deallocator → List ℕ
deallocator_marks deallocator_idle = []
deallocator_marks (given_slot i) = i ∷ []
deallocator_marks (checked_slot i) = i ∷ []
deallocator_marks assertion_failed = []
deallocator_marks (cleared_slot i) = []
deallocator_marks (got_head i h) = []
deallocator_marks (linked_slot i h) = []
deallocator_marks pushed_slot = []

-- What the count still holds for the deallocating thread.
abbrev pub uncounted : Deallocator → ℕ
uncounted deallocator_idle = 0
uncounted (given_slot i) = 1
uncounted (checked_slot i) = 1
uncounted assertion_failed = 0
uncounted (cleared_slot i) = 1
uncounted (got_head i h) = 1
uncounted (linked_slot i h) = 1
uncounted pushed_slot = 1

-- What the local values of the threads say of the slots.
abbrev pub Allocating : ℕ → List Slot → List ℕ → Allocator → Type 0
Allocating cap slots l allocator_idle = Unit
Allocating cap slots l (loaded_head h) = h < cap → 1 ≤ occurs h l
Allocating cap slots l (loaded_next h n) = (1 ≤ occurs h l) × ((slot_at slots h).next_free ≡ n)
Allocating cap slots l (took_slot h) = Unit
Allocating cap slots l (marked_slot h) = Unit

abbrev pub Deallocating : List Slot → Deallocator → Type 0
Deallocating slots deallocator_idle = Unit
Deallocating slots (given_slot i) = Unit
Deallocating slots (checked_slot i) = Unit
Deallocating slots assertion_failed = ⊥
Deallocating slots (cleared_slot i) = Unit
Deallocating slots (got_head i h) = Unit
Deallocating slots (linked_slot i h) = (slot_at slots i).next_free ≡ h
Deallocating slots pushed_slot = Unit

pub occurs-single : (j i : ℕ) (l : List ℕ) → occurs j (i ∷ l) ≡ one_if (i == j) + occurs j l
unfolding occurs
occurs-single j i l = ground arith

pub occurs-single_self : (i : ℕ) → occurs i (i ∷ []) ≡ 1
unfolding occurs
occurs-single_self i = ground arith

pub one_if-other : (i j : ℕ) → i ≢ j → one_if (i == j) ≡ 0
one_if-other i j e = ground (arith, e)

-- The slot `j` after a write to slot `i`.
pub slot_at-set :
    (slots : List Slot) (i j : ℕ) (s : Slot)
    → i < length slots
    → ((i ≡ j) × (slot_at (set slots i s) j ≡ s))
      ⊎ ((i ≢ j) × (slot_at (set slots i s) j ≡ slot_at slots j))
slot_at-set slots i j s lt = elim (Bool-cases (i == j)) [
  | inl q ↦
      let w : i ≡ j = ground (arith, q) in
      inl (w, subst (λ x. slot_at (set slots i s) x ≡ s) w (get_or-set_self slots i s no_slot lt))
  | inr q ↦
      let ne : i ≢ j = λ w. ground (arith, q, w) in inr (ne, get_or-set_ne slots i j s no_slot ne)
]

-- A write that keeps the link of its slot keeps all links.
pub next_free-set :
    (slots : List Slot) (i j : ℕ) (s : Slot)
    → i < length slots
    → s.next_free ≡ (slot_at slots i).next_free
    → (slot_at (set slots i s) j).next_free ≡ (slot_at slots j).next_free
next_free-set slots i j s lt e = elim (slot_at-set slots i j s lt) [
  | inl (w, r) ↦ ap (λ x. x.next_free) r ∙ e ∙ ap (λ x. (slot_at slots x).next_free) w
  | inr (w, r) ↦ ap (λ x. x.next_free) r
]

pub occurs-drop_one :
    (i j : ℕ) (l : List ℕ) → has i l ≡ true → occurs j l ≡ one_if (i == j) + occurs j (drop_one i l)
unfolding has drop_one occurs
occurs-drop_one i j [] h = absurd cc
occurs-drop_one i j (k ∷ l) h = elim (Bool-cases (k == i)) [
  | inl q ↦
      let w : k ≡ i = ground (arith, q) in
      rw q (occurs-single j k l ∙ ap (λ x. one_if (x == j) + occurs j l) w)
  | inr q ↦
      let later : has i l ≡ true = rw q at h in
      rw q (
        omega (
          arith,
          occurs-single j k l,
          occurs-single j k (drop_one i l),
          occurs-drop_one i j l later,
        ))
]

pub length-drop_one : (i : ℕ) (l : List ℕ) → has i l ≡ true → length l ≡ suc (length (drop_one i l))
unfolding has drop_one
length-drop_one i [] h = absurd cc
length-drop_one i (k ∷ l) h = elim (Bool-cases (k == i)) [
  | inl q ↦ rw q refl
  | inr q ↦ let later : has i l ≡ true = rw q at h in rw q (ap suc (length-drop_one i l later))
]

module _ (cap : ℕ) where
  pub Chain-kept :
      (slots slots' : List Slot) (head : ℕ) (l : List ℕ)
      → ((j : ℕ) → (slot_at slots' j).next_free ≡ (slot_at slots j).next_free)
      → Chain cap slots head l
      → Chain cap slots' head l
  unfolding Chain
  Chain-kept slots slots' head [] same c = c
  Chain-kept slots slots' head (i ∷ l) same (e, lt, c) =
      (e, lt, rw (same i) (Chain-kept slots slots' _ l same c))

  -- Every slot is in the list, in the hands of one thread, or handed out, and only once. The marks of the
  -- slots are on those handed out and those that a thread has marked.
  pub record Shared (p : MemoryPool) (handed l ah am dh dm : List ℕ) (n : ℕ) : Type 0 where
    pub chain : Chain cap p.slots p.free_head l
    pub parts :
        (j : ℕ) → occurs j l + occurs j ah + occurs j dh + occurs j handed ≡ one_if (ltb j cap)
    pub marks :
        (j : ℕ) → one_if (slot_at p.slots j).in_use ≡ occurs j am + occurs j dm + occurs j handed
    pub cells : length p.slots ≡ cap
    pub size : length l + length ah + length dh + length handed ≡ cap
    pub count : p.allocated ≡ length handed + n
    pub held : used p.slots ≡ length am + length dm + length handed

  abbrev pub Holds : PoolMachine → List ℕ → Type 0
  Holds m l =
      Shared m.pool m.handed l (allocator_hand m.allocator) (allocator_marks m.allocator)
        (deallocator_hand m.deallocator) (deallocator_marks m.deallocator) (uncounted m.deallocator)

  pub record IsConsistent (m : PoolMachine) : Type 0 where
    pub free : List ℕ
    pub shared : Holds m free
    pub allocating : Allocating cap m.pool.slots free m.allocator
    pub deallocating : Deallocating m.pool.slots m.deallocator

  -- A slot that occurs in a part is in range.
  pub in_range : (j : ℕ) → 1 ≤ one_if (ltb j cap) → j < cap
  in_range j h = ground (arith, h)

  pub at_most_once : (j : ℕ) → one_if (ltb j cap) ≤ 1
  at_most_once j = ground arith
