-- ===== src/MemoryPool/Free.antt =====
-- The free slots of `memory_pool.hpp` as a list.
use hft_sdk.Base.{
  Bool, Bool-cases, List, [], ap, arith, false, get_or-set_ne, get_or-set_self, if◌then◌else◌, inl,
  inr, leb, length, length-set, none, refl, set, set-undo, some, subst, suc, sym, true, u32_mod,
  u64_mod, zero, ℕ, ◌%◌, ◌+◌, ◌-◌, ◌<◌, ◌==◌, ◌∙◌, ◌∷◌, ◌≡◌, ◌≢◌, ◌≤◌, ◌⊎◌,
}
use hft_sdk.MemoryPool.{Slot, no_slot, MemoryPool, slot_at, allocate, deallocate}

-- How often `j` stands in the list.
unfoldable pub occurs : ℕ → List ℕ → ℕ
occurs j [] = 0
occurs j (i ∷ l) = if i == j then occurs j l + 1 else occurs j l

abbrev pub one_if : Bool → ℕ
one_if true = 1
one_if false = 0

-- How many slots are in use.
unfoldable pub used : List Slot → ℕ
used [] = 0
used (s ∷ ss) = one_if s.in_use + used ss

pub used-set :
    (ss : List Slot) (i : ℕ) (s : Slot)
    → i < length ss
    → used (set ss i s) + one_if (slot_at ss i).in_use ≡ used ss + one_if s.in_use
unfolding used
used-set [] i s lt = absurd (omega arith)
used-set (x ∷ ss) zero s lt = omega arith
used-set (x ∷ ss) (suc i) s lt = omega (arith, used-set ss i s (omega arith))

pub occurs-cons_ne : (i j : ℕ) (l : List ℕ) → i ≢ j → occurs j (i ∷ l) ≡ occurs j l
unfolding occurs
occurs-cons_ne i j l ne = ground (arith, ne)

pub occurs-cons : (i : ℕ) (l : List ℕ) → occurs i (i ∷ l) ≡ occurs i l + 1
unfolding occurs
occurs-cons i l = ground arith

pub occurs-cons_le : (i j : ℕ) (l : List ℕ) → occurs j l ≤ occurs j (i ∷ l)
unfolding occurs
occurs-cons_le i j l = ground arith

pub occurs-cons_once :
    (i j : ℕ) (l : List ℕ) → occurs i l ≡ 0 → occurs j l ≤ 1 → occurs j (i ∷ l) ≤ 1
occurs-cons_once i j l o h = elim (Bool-cases (i == j)) [
  | inl q ↦
      let w : i ≡ j = ground (arith, q) in
      subst (λ x. occurs x (i ∷ l) ≤ 1) w (omega (arith, o, occurs-cons i l))
  | inr q ↦ rw (occurs-cons_ne i j l (λ w. ground (arith, q, w))) h
]

module _ (cap : ℕ) where
  -- The slots of `l` are linked from `head` on, to the end mark `cap`.
  unfoldable pub Chain : List Slot → ℕ → List ℕ → Type 0
  Chain slots head [] = head ≡ cap
  Chain slots head (i ∷ l) = (head ≡ i) × (i < cap) × Chain slots (slot_at slots i).next_free l

  -- The free slots of the pool are those of `l`, the next one to allocate first.
  pub record Free (p : MemoryPool) (l : List ℕ) : Type 0 where
    pub chain : Chain p.slots p.free_head l
    pub once : (j : ℕ) → occurs j l ≤ 1
    pub flags : (j : ℕ) → j < cap → (slot_at p.slots j).in_use ≡ (occurs j l == 0)
    pub cells : length p.slots ≡ cap
    pub count : p.allocated + length l ≡ cap
    pub held : p.allocated ≡ used p.slots

  -- A write to a slot that is not in the chain leaves the chain.
  pub Chain-set :
      (slots : List Slot) (head : ℕ) (l : List ℕ) (i : ℕ) (s : Slot)
      → occurs i l ≡ 0
      → Chain slots head l
      → Chain (set slots i s) head l
  unfolding Chain occurs
  Chain-set slots head [] i s o c = c
  Chain-set slots head (j ∷ l) i s o (e, lt, c) = elim (Bool-cases (j == i)) [
    | inl q ↦ absurd (ground (arith, q, o))
    | inr q ↦
        let ne : i ≢ j = λ w. ground (arith, q, w) in
        (
          e,
          lt,
          rw (get_or-set_ne slots i j s no_slot ne)
              (Chain-set slots _ l i s (ground (arith, q, o)) c),
        )
  ]

  pub allocate-none : (p : MemoryPool) → Free p [] → allocate cap p ≡ (p, none)
  unfolding allocate Chain
  allocate-none p f = let t : leb cap p.free_head ≡ true = ground (arith, f.chain) in rw t refl

  -- The mark of a slot after a write to slot `i`.
  flags-set :
      (slots : List Slot) (l k : List ℕ) (i : ℕ) (s : Slot)
      → length slots ≡ cap
      → i < cap
      → s.in_use ≡ (occurs i k == 0)
      → ((j : ℕ) → i ≢ j → occurs j k ≡ occurs j l)
      → ((j : ℕ) → j < cap → (slot_at slots j).in_use ≡ (occurs j l == 0))
      → (j : ℕ) → j < cap
      → (slot_at (set slots i s) j).in_use ≡ (occurs j k == 0)
  flags-set slots l k i s n lt own same f j h = elim (Bool-cases (i == j)) [
    | inl q ↦
        let w : i ≡ j = ground (arith, q) in
        subst (λ x. (slot_at (set slots i s) x).in_use ≡ (occurs x k == 0)) w
          (rw (get_or-set_self slots i s no_slot (omega (arith, n))) own)
    | inr q ↦
        let ne : i ≢ j = λ w. ground (arith, q, w) in
        rw (get_or-set_ne slots i j s no_slot ne, same j ne) (f j h)
  ]

  -- An allocation hands out the first free slot, and the others stay free.
  pub allocate-some :
      cap < u32_mod
      → (p : MemoryPool) (i : ℕ) (l : List ℕ) → Free p (i ∷ l)
      → ((allocate cap p).1 ≡ some i) × Free (allocate cap p).0 l
  unfolding allocate Chain
  allocate-some small p i l f =
      let (e, lt, c) = f.chain in
      let t : leb cap p.free_head ≡ false = ground (arith, e, lt) in
      let o : occurs i l ≡ 0 = omega (arith, f.once i, occurs-cons i l) in
      let now =
        used-set p.slots i (record (slot_at p.slots i) { in_use = true })
          (omega (arith, f.cells, lt)) in
      let own : (slot_at p.slots i).in_use ≡ false =
        f.flags i lt ∙ rw (occurs-cons i l) (ground arith) in
      rw (t, e)
        (
          refl,
          record {
            chain = Chain-set p.slots _ l i _ o c;
            once = λ j. omega (arith, f.once j, occurs-cons_le i j l);
            flags =
                flags-set p.slots (i ∷ l) l i _ f.cells lt (rw o refl)
                  (λ j ne. sym (occurs-cons_ne i j l ne)) f.flags;
            cells = length-set p.slots i _ ∙ f.cells;
            count = omega (arith, f.count, small);
            held = omega (arith, f.count, f.held, small, now, ap one_if own);
          },
        )

  -- A slot in use that is given back becomes the next one to allocate.
  pub deallocate-some :
      cap < u32_mod
      → (p : MemoryPool) (i : ℕ) (l : List ℕ) → Free p l
      → i < cap
      → occurs i l ≡ 0
      → (q : MemoryPool) × ((deallocate cap p (some i) ≡ some q) × Free q (i ∷ l))
  unfolding deallocate Chain
  deallocate-some small p i l f lt o =
      let t : leb cap i ≡ false = ground (arith, lt) in
      let u : (slot_at p.slots i).in_use ≡ true = f.flags i lt ∙ rw o refl in
      let now =
        used-set p.slots i (record { next_free = p.free_head; in_use = false })
          (omega (arith, f.cells, lt)) in
      let some_held : 1 ≤ p.allocated = omega (arith, f.held, now, ap one_if u) in
      let small_i : i % u32_mod ≡ i = omega (arith, small, lt) in
      rw (t, u)
        (
          _,
          (
            refl,
            record {
              chain = (
                small_i,
                lt,
                rw (get_or-set_self p.slots i _ no_slot (omega (arith, f.cells, lt)))
                    (Chain-set p.slots _ l i _ o f.chain),
              );
              once = λ j. occurs-cons_once i j l o (f.once j);
              flags =
                  flags-set p.slots l (i ∷ l) i _ f.cells lt (rw (occurs-cons i l) (ground arith))
                    (λ j ne. occurs-cons_ne i j l ne) f.flags;
              cells = length-set p.slots i _ ∙ f.cells;
              count = omega (arith, some_held, f.count, small, lt);
              held = omega (arith, some_held, f.count, f.held, small, now, ap one_if u);
            },
          ),
        )

  -- Any other slot is refused.
  pub deallocate-none :
      (p : MemoryPool) (i : ℕ) (l : List ℕ)
      → Free p l
      → (cap ≤ i) ⊎ (0 < occurs i l)
      → deallocate cap p (some i) ≡ none
  unfolding deallocate
  deallocate-none p i l f (inl le) = ground (arith, le)
  deallocate-none p i l f (inr o) = elim (Bool-cases (leb cap i)) [
    | inl t ↦ rw t refl
    | inr t ↦
        let u : (slot_at p.slots i).in_use ≡ false =
          f.flags i (ground (arith, t)) ∙ ground (arith, o) in
        rw (t, u) refl
  ]

  -- In a pool with fewer than 2^32 slots whose free slots are those of a list that is not empty,
  -- an allocation that is given back at once leaves the pool exactly as it was.
  deallocate-allocate :
      cap < u32_mod
      → (p : MemoryPool) (i : ℕ) (l : List ℕ) → Free p (i ∷ l)
      → deallocate cap (allocate cap p).0 (allocate cap p).1 ≡ some p
  unfolding deallocate allocate Chain
  deallocate-allocate small p i l f =
      let (e, lt, c) = f.chain in
      let t : leb cap p.free_head ≡ false = ground (arith, e, lt) in
      let own : (slot_at p.slots p.free_head).in_use ≡ false =
        f.flags p.free_head (omega (arith, e, lt)) ∙ rw (e, occurs-cons i l) (ground arith) in
      let read =
        get_or-set_self p.slots p.free_head (record (slot_at p.slots p.free_head) { in_use = true })
          no_slot (omega (arith, e, lt, f.cells)) in
      let back =
        set-undo p.slots p.free_head (record (slot_at p.slots p.free_head) { in_use = true })
          (slot_at p.slots p.free_head) no_slot refl in
      let h : p.free_head % u32_mod ≡ p.free_head = omega (arith, small, e, lt) in
      let n : ((p.allocated + 1) % u64_mod + u64_mod - 1) % u64_mod ≡ p.allocated =
        omega (arith, small, f.count) in
      rw (t, t, read, h, n)
        (ap (λ ss. some (record p { slots = ss }))
          (ap
              (λ b.
                set
                  (set p.slots p.free_head (record (slot_at p.slots p.free_head) { in_use = true }))
                  p.free_head (record (slot_at p.slots p.free_head) { in_use = b }))
              (sym own)
            ∙ back))
