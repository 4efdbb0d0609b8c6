-- ===== src/MemoryPool/Threads/Steps.antt =====
-- The steps of the two threads of `memory_pool.hpp` keep the pool consistent.
use hft_sdk.Base.{
  Bool, Bool-cases, List, [], ap, arith, false, get_or-set_ne, get_or-set_self, inl, inr, leb,
  length, not, refl, subst, sym, true, u32_mod, ℕ, ◌&&◌, ◌<◌, ◌==◌, ◌∙◌, ◌∷◌, ◌≡◌, ◌≢◌, ◌≤◌,
}
use hft_sdk.MemoryPool.{Slot, no_slot, MemoryPool, slot_at}
use hft_sdk.MemoryPool.Free.{Chain, occurs, occurs-cons_le, one_if}
use hft_sdk.MemoryPool.Threads.{
  Allocator, allocator_idle, loaded_head, loaded_next, took_slot, marked_slot, allocator_step,
  Deallocator, deallocator_idle, given_slot, checked_slot, assertion_failed, cleared_slot, got_head,
  linked_slot, pushed_slot, deallocator_step, PoolMachine, has, give_slot, PoolMove,
  allocator_moves, deallocator_moves, gives_back, pool_move, pool_moves,
}
use hft_sdk.MemoryPool.Threads.Invariant.{
  next_free-set, in_range, at_most_once, occurs-single_self, Shared, IsConsistent,
}
use hft_sdk.MemoryPool.Threads.Changes.{
  Shared-taken, Shared-marked, Shared-counted, Shared-given, Shared-cleared, Shared-linked,
  Shared-pushed, Shared-uncounted,
}
use hft_sdk.MemoryPool.Threads.Knowledge.{
  deallocator-marks_le, allocator-marks_le, uncounted_le, Deallocating-kept, Allocating-kept,
}

module _ (cap : ℕ) where
  -- The head of the list, if it is a slot, is free.
  head_free :
      (slots : List Slot) (head : ℕ) (l : List ℕ)
      → Chain cap slots head l
      → head < cap
      → 1 ≤ occurs head l
  unfolding Chain occurs
  head_free slots head [] c lt = absurd (omega (arith, c, lt))
  head_free slots head (i ∷ l) c lt = ground (arith, c.0)

  -- A slot in the hands of the allocating thread.
  hand_lt :
      (h : ℕ) (p : MemoryPool) (handed l am dh dm : List ℕ) (k : ℕ)
      → Shared cap p handed l (h ∷ []) am dh dm k
      → h < length p.slots
  unfolding occurs
  hand_lt h p handed l am dh dm k s =
      omega (arith, in_range cap h (omega (arith, s.parts h, occurs-single_self h)), s.cells)

  -- A slot in the hands of the deallocating thread.
  held_lt :
      (i : ℕ) (p : MemoryPool) (handed l ah am dm : List ℕ) (k : ℕ)
      → Shared cap p handed l ah am (i ∷ []) dm k
      → i < cap
  held_lt i p handed l ah am dm k s =
      in_range cap i (omega (arith, s.parts i, occurs-single_self i))

  held_apart :
      (i : ℕ) (p : MemoryPool) (handed l ah am dm : List ℕ) (k : ℕ)
      → Shared cap p handed l ah am (i ∷ []) dm k
      → (j : ℕ) → 1 ≤ occurs j l
      → i ≢ j
  held_apart i p handed l ah am dm k s j o w =
      let at_j = subst (λ x. occurs x (i ∷ []) ≡ 1) w (occurs-single_self i) in
      absurd (omega (arith, s.parts j, at_j, at_most_once cap j, o))

  held_in_use :
      (i : ℕ) (p : MemoryPool) (handed l ah am : List ℕ) (k : ℕ)
      → Shared cap p handed l ah am (i ∷ []) (i ∷ []) k
      → (slot_at p.slots i).in_use ≡ true
  held_in_use i p handed l ah am k s = elim (Bool-cases (slot_at p.slots i).in_use) [
    | inl e ↦ e
    | inr e ↦ absurd (omega (arith, ap one_if e, s.marks i, occurs-single_self i))
  ]

  abbrev pub machine : MemoryPool → Allocator → Deallocator → List ℕ → PoolMachine
  machine p a d l = record { pool = p; allocator = a; deallocator = d; handed = l }

  allocator_step-IsConsistent :
      cap < u32_mod
      → (fails : Bool) (p : MemoryPool) (a : Allocator) (d : Deallocator) (handed : List ℕ)
      → IsConsistent cap (machine p a d handed)
      → IsConsistent cap (allocator_step cap fails (machine p a d handed) a)
  unfolding allocator_step
  allocator_step-IsConsistent small fails p allocator_idle d handed v = record {
    free = v.free;
    shared = v.shared;
    allocating = head_free p.slots p.free_head v.free v.shared.chain;
    deallocating = v.deallocating;
  }
  allocator_step-IsConsistent small fails p (loaded_head h) d handed v =
      elim (Bool-cases (leb cap h)) [
        | inl e ↦ rw e (record {
          free = v.free;
          shared = v.shared;
          allocating = tt;
          deallocating = v.deallocating;
        })
        | inr e ↦ rw e (record {
          free = v.free;
          shared = v.shared;
          allocating = (v.allocating (ground (arith, e)), refl);
          deallocating = v.deallocating;
        })
      ]
  allocator_step-IsConsistent small fails p (loaded_next h n) d handed v =
      elim (Bool-cases (p.free_head == h && not fails)) [
        | inl e ↦
            let w : p.free_head ≡ h = ground (arith, e) in
            let (r, (_, s)) =
              Shared-taken cap p handed v.free _ _ h n _ w v.allocating.0 v.allocating.1 v.shared in
            rw e (record { free = r; shared = s; allocating = tt; deallocating = v.deallocating })
        | inr e ↦ rw e (record {
          free = v.free;
          shared = v.shared;
          allocating = head_free p.slots p.free_head v.free v.shared.chain;
          deallocating = v.deallocating;
        })
      ]
  allocator_step-IsConsistent small fails p (took_slot h) d handed v =
      let s = Shared-marked cap p handed v.free _ _ h _ (deallocator-marks_le d) v.shared in
      let inside = hand_lt h p handed v.free _ _ _ _ v.shared in
      record {
        free = v.free;
        shared = s;
        allocating = tt;
        deallocating =
            Deallocating-kept p.slots _ d (λ j. next_free-set p.slots h j _ inside refl)
              v.deallocating;
      }
  allocator_step-IsConsistent small fails p (marked_slot h) d handed v = record {
    free = v.free;
    shared = Shared-counted cap p handed v.free _ _ h _ small (uncounted_le d) v.shared;
    allocating = tt;
    deallocating = v.deallocating;
  }

  deallocator_step-IsConsistent :
      cap < u32_mod
      → (fails : Bool) (p : MemoryPool) (a : Allocator) (d : Deallocator) (handed : List ℕ)
      → IsConsistent cap (machine p a d handed)
      → IsConsistent cap (deallocator_step cap fails (machine p a d handed) d)
  unfolding deallocator_step
  deallocator_step-IsConsistent small fails p a deallocator_idle handed v = v
  deallocator_step-IsConsistent small fails p a (given_slot i) handed v =
      let lt = held_lt i p handed v.free _ _ _ _ v.shared in
      let u = held_in_use i p handed v.free _ _ _ v.shared in
      let t : leb cap i ≡ false = ground (arith, lt) in
      rw (t, u)
        (record { free = v.free; shared = v.shared; allocating = v.allocating; deallocating = tt })
  deallocator_step-IsConsistent small fails p a (checked_slot i) handed v =
      let s = Shared-cleared cap p handed v.free _ _ i _ (allocator-marks_le a) v.shared in
      let lt = held_lt i p handed v.free _ _ _ _ v.shared in
      let inside : i < length p.slots = omega (arith, v.shared.cells, lt) in
      record {
        free = v.free;
        shared = s;
        allocating =
            Allocating-kept cap p.slots _ v.free v.free a
              (λ j o. next_free-set p.slots i j _ inside refl) (λ j. omega arith) v.allocating;
        deallocating = tt;
      }
  deallocator_step-IsConsistent small fails p a assertion_failed handed v = v
  deallocator_step-IsConsistent small fails p a (cleared_slot i) handed v = record {
    free = v.free;
    shared = v.shared;
    allocating = v.allocating;
    deallocating = tt;
  }
  deallocator_step-IsConsistent small fails p a (got_head i h) handed v =
      let s = Shared-linked cap p handed v.free _ _ _ i h _ v.shared in
      let lt = held_lt i p handed v.free _ _ _ _ v.shared in
      let inside : i < length p.slots = omega (arith, v.shared.cells, lt) in
      let apart = held_apart i p handed v.free _ _ _ _ v.shared in
      record {
        free = v.free;
        shared = s;
        allocating =
            Allocating-kept cap p.slots _ v.free v.free a
              (λ j o. ap (λ x. x.next_free) (get_or-set_ne p.slots i j _ no_slot (apart j o)))
              (λ j. omega arith) v.allocating;
        deallocating = ap (λ x. x.next_free) (get_or-set_self p.slots i _ no_slot inside);
      }
  deallocator_step-IsConsistent small fails p a (linked_slot i h) handed v =
      elim (Bool-cases (p.free_head == h && not fails)) [
        | inl e ↦
            let w : p.free_head ≡ h = ground (arith, e) in
            rw e (record {
              free = i ∷ v.free;
              shared =
                  Shared-pushed cap p handed v.free _ _ i _ small (v.deallocating ∙ sym w) v.shared;
              allocating =
                  Allocating-kept cap p.slots p.slots v.free (i ∷ v.free) a (λ j o. refl)
                    (λ j. occurs-cons_le i j v.free) v.allocating;
              deallocating = tt;
            })
        | inr e ↦ rw e (record {
          free = v.free;
          shared = v.shared;
          allocating = v.allocating;
          deallocating = tt;
        })
      ]
  deallocator_step-IsConsistent small fails p a pushed_slot handed v = record {
    free = v.free;
    shared = Shared-uncounted cap p handed v.free _ _ small v.shared;
    allocating = v.allocating;
    deallocating = tt;
  }

  give_slot-IsConsistent :
      (i : ℕ) (p : MemoryPool) (a : Allocator) (d : Deallocator) (handed : List ℕ)
      → IsConsistent cap (machine p a d handed)
      → IsConsistent cap (give_slot cap i (machine p a d handed) d)
  give_slot-IsConsistent i p a deallocator_idle handed v = elim (Bool-cases (has i handed)) [
    | inr e ↦ rw e v
    | inl e ↦ rw e (record {
      free = v.free;
      shared = Shared-given cap p handed v.free _ _ i e v.shared;
      allocating = v.allocating;
      deallocating = tt;
    })
  ]
  give_slot-IsConsistent i p a (given_slot j) handed v = v
  give_slot-IsConsistent i p a (checked_slot j) handed v = v
  give_slot-IsConsistent i p a assertion_failed handed v = v
  give_slot-IsConsistent i p a (cleared_slot j) handed v = v
  give_slot-IsConsistent i p a (got_head j h) handed v = v
  give_slot-IsConsistent i p a (linked_slot j h) handed v = v
  give_slot-IsConsistent i p a pushed_slot handed v = v

  pool_move-IsConsistent :
      cap < u32_mod
      → (x : PoolMove) (m : PoolMachine) → IsConsistent cap m
      → IsConsistent cap (pool_move cap x m)
  unfolding pool_move
  pool_move-IsConsistent small (allocator_moves fails) m v =
      allocator_step-IsConsistent small fails m.pool m.allocator m.deallocator m.handed v
  pool_move-IsConsistent small (deallocator_moves fails) m v =
      deallocator_step-IsConsistent small fails m.pool m.allocator m.deallocator m.handed v
  pool_move-IsConsistent small (gives_back i) m v =
      give_slot-IsConsistent i m.pool m.allocator m.deallocator m.handed v

  pub pool_moves-IsConsistent :
      cap < u32_mod
      → (xs : List PoolMove) (m : PoolMachine) → IsConsistent cap m
      → IsConsistent cap (pool_moves cap xs m)
  unfolding pool_moves
  pool_moves-IsConsistent small [] m v = v
  pool_moves-IsConsistent small (x ∷ xs) m v =
      pool_moves-IsConsistent small xs (pool_move cap x m) (pool_move-IsConsistent small x m v)
