-- ===== src/MemoryPool.antt =====
-- The memory pool of `src/common/memory_pool.hpp`, used by one thread: its slots, its list of free
-- slots and its count. A pointer to an object is the index of its slot, which `deallocate` computes
-- from it; the objects themselves are not modelled. With one thread a compare-and-exchange fails
-- only spuriously, and its loop then does the same again.
pub mod Built
pub mod Calls
pub mod Free
pub mod Tests
pub mod Threads
use hft_sdk.Base.{
  Bool, List, Option, [], false, get_or, if◌then◌else◌, leb, none, set, some, suc, true, u32_mod,
  u64_mod, zero, ℕ, ◌%◌, ◌+◌, ◌-◌, ◌∷◌,
}

pub record Slot : Type 0 where
  pub next_free : ℕ
  pub in_use : Bool

-- A read of `slots_` out of range, which does not occur.
abbrev pub no_slot : Slot
no_slot = record { next_free = 0; in_use = false }

pub record MemoryPool : Type 0 where
  pub slots : List Slot
  pub free_head : ℕ
  pub allocated : ℕ

abbrev pub slot_at : List Slot → ℕ → Slot
slot_at slots i = get_or slots i no_slot

-- The loop of the constructor, with `n` slots left and the next one at `i`.
unfoldable pub build_slots : ℕ → ℕ → List Slot
build_slots zero i = []
build_slots (suc n) i =
    record { next_free = (i + 1) % u32_mod; in_use = false } ∷ build_slots n (suc i)

module _ (cap : ℕ) where
  unfoldable pub new_pool : MemoryPool
  new_pool = record { slots = build_slots cap 0; free_head = 0; allocated = 0 }

  -- `allocate`, whose result is the index of the slot; `none` is `nullptr`.
  unfoldable pub allocate : MemoryPool → MemoryPool × Option ℕ
  allocate p =
      let head = p.free_head in
      let taken = slot_at p.slots head in
      if leb cap head then (p, none) else (
        record {
          slots = set p.slots head (record taken { in_use = true });
          free_head = taken.next_free;
          allocated = (p.allocated + 1) % u64_mod;
        },
        some head,
      )

  -- `deallocate`, whose `none` argument is `nullptr`; the result is `none` where an assertion fails.
  unfoldable pub deallocate : MemoryPool → Option ℕ → Option MemoryPool
  deallocate p none = some p
  deallocate p (some idx) =
      if leb cap idx
      then none
      else if (slot_at p.slots idx).in_use
      then some (record {
        slots = set p.slots idx (record { next_free = p.free_head; in_use = false });
        free_head = idx % u32_mod;
        allocated = (p.allocated + u64_mod - 1) % u64_mod;
      })
      else none

  abbrev pub available : MemoryPool → ℕ
  available p = (cap + u64_mod - p.allocated) % u64_mod
