-- ===== src/MemoryPool/Threads/Safety.antt =====
-- What the two threads of `MemoryPool.Threads` keep, for `memory_pool.hpp`.
use hft_sdk.Base.{
  Bool-cases, List, [], ap, arith, inl, inr, length, ltb, refl, subst, sym, u32_mod, ℕ, ◌+◌, ◌<◌,
  ◌∙◌, ◌≡◌, ◌≢◌, ◌≤◌,
}
use hft_sdk.MemoryPool.{Slot, MemoryPool, slot_at, new_pool}
use hft_sdk.MemoryPool.Built.{
  run_from, new_pool-Free, occurs-run_from, occurs-run_from_ge, length-run_from, build_slots-unused,
}
use hft_sdk.MemoryPool.Free.{Free, occurs, one_if}
use hft_sdk.MemoryPool.Threads.{
  Allocator, allocator_idle, Deallocator, deallocator_idle, assertion_failed, PoolMachine,
  new_pool_machine, PoolMove, pool_moves,
}
use hft_sdk.MemoryPool.Threads.Invariant.{
  allocator_hand, deallocator_hand, Deallocating, at_most_once, Shared, IsConsistent,
}
use hft_sdk.MemoryPool.Threads.Steps.{machine, pool_moves-IsConsistent}

module _ (cap : ℕ) where
  occurs-run_from_once :
      (l : List ℕ) (j : ℕ)
      → occurs j l ≤ 1
      → (j < cap → 0 < occurs j l)
      → (cap ≤ j → occurs j l ≡ 0)
      → occurs j l ≡ one_if (ltb j cap)
  occurs-run_from_once l j once low high = elim (Bool-cases (ltb j cap)) [
    | inl e ↦ rw e (omega (arith, once, low (ground (arith, e))))
    | inr e ↦ rw e (high (ground (arith, e)))
  ]

  new_pool_machine-IsConsistent : cap < u32_mod → IsConsistent cap (new_pool_machine cap)
  unfolding occurs new_pool
  new_pool_machine-IsConsistent small =
      let f = new_pool-Free cap small in
      record {
        free = run_from cap 0;
        shared = record {
          chain = f.chain;
          parts = λ j.
              let o =
                occurs-run_from_once (run_from cap 0) j (f.once j)
                  (λ lt. occurs-run_from cap 0 j (omega arith) (omega (arith, lt)))
                  (λ le. occurs-run_from_ge cap 0 j (omega arith)) in
              omega (arith, o);
          marks = λ j. ap one_if (build_slots-unused cap 0 j);
          cells = f.cells;
          size = omega (arith, length-run_from cap 0);
          count = refl;
          held = sym f.held;
        };
        allocating = tt;
        deallocating = tt;
      }

  -- What the threads and the client hold.
  pub record IsSafe (m : PoolMachine) : Type 0 where
    pub unharmed : m.deallocator ≢ assertion_failed
    pub once :
        (j : ℕ)
        → occurs j (allocator_hand m.allocator)
            + occurs j (deallocator_hand m.deallocator)
            + occurs j m.handed
          ≤ one_if (ltb j cap)
    pub quiet :
        m.allocator ≡ allocator_idle
        → m.deallocator ≡ deallocator_idle
        → (m.pool.allocated ≡ length m.handed) × ((l : List ℕ) × Free cap m.pool l)

  IsConsistent-Free :
      (p : MemoryPool) (handed l : List ℕ) → Shared cap p handed l [] [] [] [] 0 → Free cap p l
  unfolding occurs
  IsConsistent-Free p handed l s = record {
    chain = s.chain;
    once = λ j. omega (arith, s.parts j, at_most_once cap j);
    flags = λ j lt. elim (Bool-cases (slot_at p.slots j).in_use) [
      | inl e ↦ e ∙ ground (arith, s.parts j, s.marks j, ap one_if e, at_most_once cap j)
      | inr e ↦ e ∙ ground (arith, s.parts j, s.marks j, ap one_if e, lt)
    ];
    cells = s.cells;
    count = omega (arith, s.count, s.size);
    held = omega (arith, s.count, s.held);
  }

  IsConsistent-quiet :
      (p : MemoryPool) (a : Allocator) (d : Deallocator) (handed : List ℕ)
      → IsConsistent cap (machine cap p a d handed)
      → a ≡ allocator_idle
      → d ≡ deallocator_idle
      → (p.allocated ≡ length handed) × ((l : List ℕ) × Free cap p l)
  IsConsistent-quiet p a d handed v e f =
      let w = subst (λ x. IsConsistent cap (machine cap p x d handed)) e v in
      let u = subst (λ x. IsConsistent cap (machine cap p allocator_idle x handed)) f w in
      (omega (arith, u.shared.count), (u.free, IsConsistent-Free p handed u.free u.shared))

  IsConsistent-unharmed :
      (d : Deallocator) (slots : List Slot) → Deallocating slots d → d ≢ assertion_failed
  IsConsistent-unharmed d slots v e = subst (λ x. Deallocating slots x) e v

  -- In a pool with fewer than 2^32 slots, one thread that allocates and one that gives back what
  -- was handed out, in every interleaving of their memory accesses and with any
  -- compare-and-exchange failing spuriously, never fail an assertion and never have a slot twice:
  -- no slot is at once in the hands of a thread and handed out, or of both threads, or handed out
  -- twice; and whenever both are idle, the count is the number of slots handed out, and the others
  -- form the free list of a pool in its sequential state.
  pub pool_moves-IsSafe :
      cap < u32_mod → (xs : List PoolMove) → IsSafe (pool_moves cap xs (new_pool_machine cap))
  pool_moves-IsSafe small xs =
      let m = pool_moves cap xs (new_pool_machine cap) in
      let v = pool_moves-IsConsistent cap small xs _ (new_pool_machine-IsConsistent small) in
      record {
        unharmed = IsConsistent-unharmed m.deallocator m.pool.slots v.deallocating;
        once = λ j. omega (arith, v.shared.parts j);
        quiet = IsConsistent-quiet m.pool m.allocator m.deallocator m.handed v;
      }
