-- ===== src/MemoryPool/Threads.antt =====
-- The pool of `src/common/memory_pool.hpp` under two threads, one that allocates and one that
-- deallocates what the first has handed out. A step is one access to memory that both threads see, and
-- the steps of the two come in any order. A compare-and-exchange may fail spuriously.
pub mod Changes
pub mod Invariant
pub mod Knowledge
pub mod Safety
pub mod Steps
use hft_sdk.Base.{
  Bool, List, [], false, if◌then◌else◌, leb, not, set, true, u32_mod, u64_mod, ℕ, ◌%◌, ◌&&◌, ◌+◌,
  ◌-◌, ◌==◌, ◌∷◌,
}
use hft_sdk.MemoryPool.{Slot, MemoryPool, slot_at, new_pool}

-- Where the allocating thread stands in `allocate`, with its local values.
pub data Allocator : Type 0 where
  allocator_idle : Allocator
  -- It has loaded `free_head_` into `head`.
  loaded_head : ℕ → Allocator
  -- It has read `next` in the slot `head`.
  loaded_next : ℕ → ℕ → Allocator
  -- It has taken the slot off the list.
  took_slot : ℕ → Allocator
  -- It has set the slot's `in_use`.
  marked_slot : ℕ → Allocator

-- Where the other thread stands in `deallocate`, with its local values.
pub data Deallocator : Type 0 where
  deallocator_idle : Deallocator
  given_slot : ℕ → Deallocator
  -- The assertions hold.
  checked_slot : ℕ → Deallocator
  assertion_failed : Deallocator
  -- It has cleared the slot's `in_use`.
  cleared_slot : ℕ → Deallocator
  -- It has the slot and `head`.
  got_head : ℕ → ℕ → Deallocator
  -- It has written `head` into the slot's `next_free`.
  linked_slot : ℕ → ℕ → Deallocator
  -- The slot is on the list, and is to be counted.
  pushed_slot : Deallocator

-- The pool, the threads, and the slots that were handed out and not given back.
pub record PoolMachine : Type 0 where
  pub pool : MemoryPool
  pub allocator : Allocator
  pub deallocator : Deallocator
  pub handed : List ℕ

-- Whether the list has the number, and the list without its first occurrence.
unfoldable pub has : ℕ → List ℕ → Bool
has i [] = false
has i (j ∷ l) = if j == i then true else has i l

unfoldable pub drop_one : ℕ → List ℕ → List ℕ
drop_one i [] = []
drop_one i (j ∷ l) = if j == i then l else j ∷ drop_one i l

abbrev pub new_pool_machine : ℕ → PoolMachine
new_pool_machine cap = record {
  pool = new_pool cap;
  allocator = allocator_idle;
  deallocator = deallocator_idle;
  handed = [];
}

-- A move of the schedule. The flag says that a compare-and-exchange fails spuriously.
pub data PoolMove : Type 0 where
  allocator_moves : Bool → PoolMove
  deallocator_moves : Bool → PoolMove
  gives_back : ℕ → PoolMove

module _ (cap : ℕ) where
  -- The next access of the allocating thread, which calls `allocate` again and again.
  unfoldable pub allocator_step : Bool → PoolMachine → Allocator → PoolMachine
  allocator_step fails m allocator_idle = record m { allocator = loaded_head m.pool.free_head }
  allocator_step fails m (loaded_head head) =
      if leb cap head
      then record m { allocator = allocator_idle }
      else record m { allocator = loaded_next head (slot_at m.pool.slots head).next_free }
  allocator_step fails m (loaded_next head next) =
      if m.pool.free_head == head && not fails
      then record m { pool = record (m.pool) { free_head = next }; allocator = took_slot head }
      else record m { allocator = loaded_head m.pool.free_head }
  allocator_step fails m (took_slot head) = record m {
    pool = record (m.pool) {
      slots = set m.pool.slots head (record (slot_at m.pool.slots head) { in_use = true });
    };
    allocator = marked_slot head;
  }
  allocator_step fails m (marked_slot head) = record m {
    pool = record (m.pool) { allocated = (m.pool.allocated + 1) % u64_mod };
    allocator = allocator_idle;
    handed = head ∷ m.handed;
  }

  -- The next access of the other thread.
  unfoldable pub deallocator_step : Bool → PoolMachine → Deallocator → PoolMachine
  deallocator_step fails m deallocator_idle = m
  deallocator_step fails m (given_slot idx) =
      if leb cap idx
      then record m { deallocator = assertion_failed }
      else if (slot_at m.pool.slots idx).in_use
      then record m { deallocator = checked_slot idx }
      else record m { deallocator = assertion_failed }
  deallocator_step fails m (checked_slot idx) = record m {
    pool = record (m.pool) {
      slots = set m.pool.slots idx (record (slot_at m.pool.slots idx) { in_use = false });
    };
    deallocator = cleared_slot idx;
  }
  deallocator_step fails m assertion_failed = m
  deallocator_step fails m (cleared_slot idx) = record m {
    deallocator = got_head idx m.pool.free_head;
  }
  deallocator_step fails m (got_head idx head) = record m {
    pool = record (m.pool) {
      slots = set m.pool.slots idx (record (slot_at m.pool.slots idx) { next_free = head });
    };
    deallocator = linked_slot idx head;
  }
  deallocator_step fails m (linked_slot idx head) =
      if m.pool.free_head == head && not fails
      then record m {
        pool = record (m.pool) { free_head = idx % u32_mod };
        deallocator = pushed_slot;
      }
      else record m { deallocator = got_head idx m.pool.free_head }
  deallocator_step fails m pushed_slot = record m {
    pool = record (m.pool) { allocated = (m.pool.allocated + u64_mod - 1) % u64_mod };
    deallocator = deallocator_idle;
  }

  -- The client gives a slot that it holds to a thread that is idle.
  abbrev pub give_slot : ℕ → PoolMachine → Deallocator → PoolMachine
  give_slot idx m deallocator_idle =
      if has idx m.handed
      then record m { deallocator = given_slot idx; handed = drop_one idx m.handed }
      else m
  give_slot idx m d = m

  unfoldable pub pool_move : PoolMove → PoolMachine → PoolMachine
  pool_move (allocator_moves fails) m = allocator_step fails m m.allocator
  pool_move (deallocator_moves fails) m = deallocator_step fails m m.deallocator
  pool_move (gives_back idx) m = give_slot idx m m.deallocator

  unfoldable pub pool_moves : List PoolMove → PoolMachine → PoolMachine
  pool_moves [] m = m
  pool_moves (x ∷ xs) m = pool_moves xs (pool_move x m)
