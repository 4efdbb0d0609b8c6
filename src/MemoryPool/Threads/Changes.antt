-- ===== src/MemoryPool/Threads/Changes.antt =====
-- The accesses of the two threads that change the pool of `memory_pool.hpp`, or what each holds of it.
use hft_sdk.Base.{
  Bool, List, [], ap, arith, false, inl, inr, length, length-set, refl, set, subst, sym, true,
  u32_mod, u64_mod, ℕ, ◌%◌, ◌+◌, ◌-◌, ◌<◌, ◌==◌, ◌∙◌, ◌∷◌, ◌≡◌, ◌≢◌, ◌≤◌,
}
use hft_sdk.MemoryPool.{MemoryPool, slot_at}
use hft_sdk.MemoryPool.Free.{Chain, Chain-set, occurs, one_if, used-set}
use hft_sdk.MemoryPool.Threads.{has, drop_one}
use hft_sdk.MemoryPool.Threads.Invariant.{
  occurs-single, occurs-single_self, one_if-other, slot_at-set, next_free-set, occurs-drop_one,
  length-drop_one, Chain-kept, Shared, in_range, at_most_once,
}

module _ (cap : ℕ) where
  -- The compare-and-exchange of `allocate`.
  pub Shared-taken :
      (p : MemoryPool) (handed l dh dm : List ℕ) (h n k : ℕ)
      → p.free_head ≡ h
      → 1 ≤ occurs h l
      → (slot_at p.slots h).next_free ≡ n
      → Shared cap p handed l [] [] dh dm k
      → (r : List ℕ) × (((l ≡ h ∷ r))
          × Shared cap (record p { free_head = n }) handed r (h ∷ []) [] dh dm k)
  unfolding Chain occurs
  Shared-taken p handed [] dh dm h n k e o f s = absurd (omega (arith, o))
  Shared-taken p handed (i ∷ r) dh dm h n k e o f s =
      let (a, lt, c) = s.chain in
      let w : h ≡ i = sym e ∙ a in
      let step = ap (λ x. (slot_at p.slots x).next_free) (sym w) ∙ f in
      (
        r,
        (
          ap (λ x. x ∷ r) (sym w),
          record {
            chain = subst (λ x. Chain cap p.slots x r) step c;
            parts = λ j. omega (
              arith,
              s.parts j,
              occurs-single j i r,
              occurs-single j h [],
              ap (λ x. one_if (x == j)) w,
            );
            marks = s.marks;
            cells = s.cells;
            size = omega (arith, s.size);
            count = s.count;
            held = s.held;
          },
        ),
      )

  -- A change of the mark of slot `i`, which the chain does not see.
  Shared-remarked :
      (p : MemoryPool) (handed l ah am am' dh dm dm' : List ℕ) (i k : ℕ) (b : Bool)
      → i < cap
      → Shared cap p handed l ah am dh dm k
      → ((j : ℕ) → i ≢ j → occurs j am' + occurs j dm' ≡ occurs j am + occurs j dm)
      → one_if b ≡ occurs i am' + occurs i dm' + occurs i handed
      → one_if b + length am + length dm
        ≡ one_if (slot_at p.slots i).in_use + length am' + length dm'
      → let s = record (slot_at p.slots i) { in_use = b } in
        Shared cap (record p { slots = set p.slots i s }) handed l ah am' dh dm' k
  Shared-remarked p handed l ah am am' dh dm dm' i k b lt s other self total =
      let x = record (slot_at p.slots i) { in_use = b } in
      let inside : i < length p.slots = omega (arith, s.cells, lt) in
      record {
        chain = Chain-kept cap p.slots _ _ l (λ j. next_free-set p.slots i j x inside refl) s.chain;
        parts = s.parts;
        marks = λ j. elim (slot_at-set p.slots i j x inside) [
          | inl (w, r) ↦
              rw r (subst (λ y. one_if b ≡ occurs y am' + occurs y dm' + occurs y handed) w self)
          | inr (w, r) ↦ rw r (omega (arith, s.marks j, other j w))
        ];
        cells = length-set p.slots i x ∙ s.cells;
        size = s.size;
        count = s.count;
        held = omega (arith, used-set p.slots i x inside, s.held, total);
      }

  -- `in_use = true` in `allocate`.
  pub Shared-marked :
      (p : MemoryPool) (handed l dh dm : List ℕ) (h k : ℕ)
      → ((j : ℕ) → occurs j dm ≤ occurs j dh)
      → Shared cap p handed l (h ∷ []) [] dh dm k
      → let s = record (slot_at p.slots h) { in_use = true } in
        Shared cap (record p { slots = set p.slots h s }) handed l (h ∷ []) (h ∷ []) dh dm k
  unfolding occurs
  Shared-marked p handed l dh dm h k le s =
      let e = occurs-single_self h in
      let once = s.parts h in
      let most = at_most_once cap h in
      let within = le h in
      let lt : h < cap = in_range cap h (omega (arith, once, most, within, e)) in
      Shared-remarked p handed l (h ∷ []) [] (h ∷ []) dh dm dm h k true lt s
        (λ j ne. omega (arith, occurs-single j h [], one_if-other h j ne))
        (omega (arith, once, most, within, e)) (omega (arith, once, most, within, e, s.marks h))

  -- `in_use = false` in `deallocate`.
  pub Shared-cleared :
      (p : MemoryPool) (handed l ah am : List ℕ) (i k : ℕ)
      → ((j : ℕ) → occurs j am ≤ occurs j ah)
      → Shared cap p handed l ah am (i ∷ []) (i ∷ []) k
      → let s = record (slot_at p.slots i) { in_use = false } in
        Shared cap (record p { slots = set p.slots i s }) handed l ah am (i ∷ []) [] k
  unfolding occurs
  Shared-cleared p handed l ah am i k le s =
      let e = occurs-single_self i in
      let once = s.parts i in
      let most = at_most_once cap i in
      let within = le i in
      let lt : i < cap = in_range cap i (omega (arith, once, most, within, e)) in
      Shared-remarked p handed l ah am am (i ∷ []) (i ∷ []) [] i k false lt s
        (λ j ne. omega (arith, occurs-single j i [], one_if-other i j ne))
        (omega (arith, once, most, within, e)) (omega (arith, once, most, within, e, s.marks i))

  -- `fetch_add` in `allocate`, and the return of the slot.
  pub Shared-counted :
      (p : MemoryPool) (handed l dh dm : List ℕ) (h k : ℕ)
      → cap < u32_mod
      → k ≤ 1
      → Shared cap p handed l (h ∷ []) (h ∷ []) dh dm k
      → Shared cap
          (record p { allocated = (p.allocated + 1) % u64_mod })
          (h ∷ handed)
          l
          []
          []
          dh
          dm
          k
  unfolding occurs
  Shared-counted p handed l dh dm h k small le s = record {
    chain = s.chain;
    parts = λ j. omega (arith, s.parts j, occurs-single j h [], occurs-single j h handed);
    marks = λ j. omega (arith, s.marks j, occurs-single j h [], occurs-single j h handed);
    cells = s.cells;
    size = omega (arith, s.size);
    count = omega (arith, s.count, s.size, small, le);
    held = omega (arith, s.held);
  }

  -- The slot that the client gives back.
  pub Shared-given :
      (p : MemoryPool) (handed l ah am : List ℕ) (i : ℕ)
      → has i handed ≡ true
      → Shared cap p handed l ah am [] [] 0
      → Shared cap p (drop_one i handed) l ah am (i ∷ []) (i ∷ []) 1
  unfolding occurs
  Shared-given p handed l ah am i h s =
      let n = length-drop_one i handed h in
      record {
        chain = s.chain;
        parts = λ j. omega (arith, s.parts j, occurs-single j i [], occurs-drop_one i j handed h);
        marks = λ j. omega (arith, s.marks j, occurs-single j i [], occurs-drop_one i j handed h);
        cells = s.cells;
        size = omega (arith, s.size, n);
        count = omega (arith, s.count, n);
        held = omega (arith, s.held, n);
      }

  -- The link of a slot that the deallocating thread has in its hands.
  pub Shared-linked :
      (p : MemoryPool) (handed l ah am dm : List ℕ) (i n k : ℕ)
      → Shared cap p handed l ah am (i ∷ []) dm k
      → let s = record (slot_at p.slots i) { next_free = n } in
        Shared cap (record p { slots = set p.slots i s }) handed l ah am (i ∷ []) dm k
  unfolding occurs
  Shared-linked p handed l ah am dm i n k s =
      let x = record (slot_at p.slots i) { next_free = n } in
      let e = occurs-single_self i in
      let once = s.parts i in
      let lt : i < cap = in_range cap i (omega (arith, once, e)) in
      let inside : i < length p.slots = omega (arith, s.cells, lt) in
      record {
        chain = Chain-set cap p.slots _ l i x (omega (arith, once, e, at_most_once cap i)) s.chain;
        parts = s.parts;
        marks = λ j. elim (slot_at-set p.slots i j x inside) [
          | inl (w, r) ↦ rw r (ap (λ y. one_if (slot_at p.slots y).in_use) w ∙ s.marks j)
          | inr (w, r) ↦ rw r (s.marks j)
        ];
        cells = length-set p.slots i x ∙ s.cells;
        size = s.size;
        count = s.count;
        held = omega (arith, used-set p.slots i x inside, s.held);
      }

  -- The compare-and-exchange of `deallocate`.
  pub Shared-pushed :
      (p : MemoryPool) (handed l ah am : List ℕ) (i k : ℕ)
      → cap < u32_mod
      → (slot_at p.slots i).next_free ≡ p.free_head
      → Shared cap p handed l ah am (i ∷ []) [] k
      → Shared cap (record p { free_head = i % u32_mod }) handed (i ∷ l) ah am [] [] k
  unfolding occurs Chain
  Shared-pushed p handed l ah am i k small link s =
      let lt : i < cap = in_range cap i (omega (arith, s.parts i, occurs-single_self i)) in
      record {
        chain = (omega (arith, small, lt), lt, rw link s.chain);
        parts = λ j. omega (arith, s.parts j, occurs-single j i [], occurs-single j i l);
        marks = s.marks;
        cells = s.cells;
        size = omega (arith, s.size);
        count = s.count;
        held = s.held;
      }

  -- `fetch_sub` in `deallocate`.
  pub Shared-uncounted :
      (p : MemoryPool) (handed l ah am : List ℕ)
      → cap < u32_mod
      → Shared cap p handed l ah am [] [] 1
      → Shared cap
          (record p { allocated = (p.allocated + u64_mod - 1) % u64_mod })
          handed
          l
          ah
          am
          []
          []
          0
  Shared-uncounted p handed l ah am small s = record {
    chain = s.chain;
    parts = s.parts;
    marks = s.marks;
    cells = s.cells;
    size = s.size;
    count = omega (arith, s.count, s.size, small);
    held = s.held;
  }
