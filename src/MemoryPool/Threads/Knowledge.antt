-- ===== src/MemoryPool/Threads/Knowledge.antt =====
-- What the two threads of `memory_pool.hpp` know of the slots while the pool changes.
use hft_sdk.Base.{List, arith, ℕ, ◌∙◌, ◌≡◌, ◌≤◌}
use hft_sdk.MemoryPool.{Slot, slot_at}
use hft_sdk.MemoryPool.Free.{occurs}
use hft_sdk.MemoryPool.Threads.{
  Allocator, allocator_idle, loaded_head, loaded_next, took_slot, marked_slot, Deallocator,
  deallocator_idle, given_slot, checked_slot, assertion_failed, cleared_slot, got_head, linked_slot,
  pushed_slot,
}
use hft_sdk.MemoryPool.Threads.Invariant.{
  allocator_hand, allocator_marks, deallocator_hand, deallocator_marks, uncounted, Allocating,
  Deallocating,
}

pub deallocator-marks_le :
    (d : Deallocator) (j : ℕ) → occurs j (deallocator_marks d) ≤ occurs j (deallocator_hand d)
unfolding occurs
deallocator-marks_le deallocator_idle j = omega arith
deallocator-marks_le (given_slot i) j = omega arith
deallocator-marks_le (checked_slot i) j = omega arith
deallocator-marks_le assertion_failed j = omega arith
deallocator-marks_le (cleared_slot i) j = ground arith
deallocator-marks_le (got_head i h) j = ground arith
deallocator-marks_le (linked_slot i h) j = ground arith
deallocator-marks_le pushed_slot j = omega arith

pub allocator-marks_le :
    (a : Allocator) (j : ℕ) → occurs j (allocator_marks a) ≤ occurs j (allocator_hand a)
unfolding occurs
allocator-marks_le allocator_idle j = omega arith
allocator-marks_le (loaded_head h) j = omega arith
allocator-marks_le (loaded_next h n) j = omega arith
allocator-marks_le (took_slot h) j = ground arith
allocator-marks_le (marked_slot h) j = omega arith

pub uncounted_le : (d : Deallocator) → uncounted d ≤ 1
uncounted_le deallocator_idle = omega arith
uncounted_le (given_slot i) = omega arith
uncounted_le (checked_slot i) = omega arith
uncounted_le assertion_failed = omega arith
uncounted_le (cleared_slot i) = omega arith
uncounted_le (got_head i h) = omega arith
uncounted_le (linked_slot i h) = omega arith
uncounted_le pushed_slot = omega arith

-- What a thread knows stays true while the links of the slots stay, or change elsewhere.
pub Deallocating-kept :
    (slots slots' : List Slot) (d : Deallocator)
    → ((j : ℕ) → (slot_at slots' j).next_free ≡ (slot_at slots j).next_free)
    → Deallocating slots d
    → Deallocating slots' d
Deallocating-kept slots slots' deallocator_idle same v = tt
Deallocating-kept slots slots' (given_slot i) same v = tt
Deallocating-kept slots slots' (checked_slot i) same v = tt
Deallocating-kept slots slots' assertion_failed same v = absurd v
Deallocating-kept slots slots' (cleared_slot i) same v = tt
Deallocating-kept slots slots' (got_head i h) same v = tt
Deallocating-kept slots slots' (linked_slot i h) same v = same i ∙ v
Deallocating-kept slots slots' pushed_slot same v = tt

pub Allocating-kept :
    (cap : ℕ) (slots slots' : List Slot) (l l' : List ℕ) (a : Allocator)
    → ((j : ℕ) → 1 ≤ occurs j l → (slot_at slots' j).next_free ≡ (slot_at slots j).next_free)
    → ((j : ℕ) → occurs j l ≤ occurs j l')
    → Allocating cap slots l a
    → Allocating cap slots' l' a
Allocating-kept cap slots slots' l l' allocator_idle same more v = tt
Allocating-kept cap slots slots' l l' (loaded_head h) same more v =
    λ lt. omega (arith, v lt, more h)
Allocating-kept cap slots slots' l l' (loaded_next h n) same more v =
    (omega (arith, v.0, more h), same h v.0 ∙ v.1)
Allocating-kept cap slots slots' l l' (took_slot h) same more v = tt
Allocating-kept cap slots slots' l l' (marked_slot h) same more v = tt
