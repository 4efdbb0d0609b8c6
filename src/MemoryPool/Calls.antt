-- ===== src/MemoryPool/Calls.antt =====
-- The calls of `memory_pool.hpp` against a stack of free slots.
use hft_sdk.Base.{
  Bool-cases, List, Option, [], arith, if◌then◌else◌, inl, inr, leb, none, refl, some, u32_mod, ℕ,
  ◌<◌, ◌==◌, ◌∷◌, ◌≡◌,
}
use hft_sdk.MemoryPool.{MemoryPool, new_pool, allocate, deallocate}
use hft_sdk.MemoryPool.Built.{run_from, new_pool-Free}
use hft_sdk.MemoryPool.Free.{
  Free, occurs, allocate-none, allocate-some, deallocate-some, deallocate-none,
}

pub data PoolCall : Type 0 where
  take_slot : PoolCall
  give_back : Option ℕ → PoolCall

-- What a call returns, then what `rest` returns from the state after it.
unfoldable pub continue_with :
    {S : Type 0} → (S → List (Option (Option ℕ))) → Option (S × Option ℕ) → List (Option (Option ℕ))
continue_with rest none = none ∷ []
continue_with rest (some r) = some r.1 ∷ rest r.0

-- What the calls return, up to a failed assertion.
unfoldable pub answers :
    {S : Type 0}
    → (S → PoolCall → Option (S × Option ℕ))
    → S
    → List PoolCall
    → List (Option (Option ℕ))
answers call s [] = []
answers call s (c ∷ cs) = continue_with (λ t. answers call t cs) (call s c)

module _ (cap : ℕ) where
  -- A call of the pool with what it returns; `none` is a failed assertion.
  unfoldable pub pool_call : MemoryPool → PoolCall → Option (MemoryPool × Option ℕ)
  pool_call p take_slot = some (allocate cap p)
  pool_call p (give_back ptr) = elim (deallocate cap p ptr) [
    | none ↦ none
    | some q ↦ some (q, none)
  ]

  -- The same on the stack of the free slots alone.
  unfoldable pub stack_call : List ℕ → PoolCall → Option (List ℕ × Option ℕ)
  stack_call [] take_slot = some ([], none)
  stack_call (i ∷ l) take_slot = some (l, some i)
  stack_call l (give_back none) = some (l, none)
  stack_call l (give_back (some i)) =
      if leb cap i then none else if occurs i l == 0 then some (i ∷ l, none) else none

  -- A call of the pool and one of the stack with the same outcome.
  unfoldable pub Agrees : Option (MemoryPool × Option ℕ) → Option (List ℕ × Option ℕ) → Type 0
  Agrees none none = Unit
  Agrees none (some r) = ⊥
  Agrees (some r) none = ⊥
  Agrees (some r) (some t) = (r.1 ≡ t.1) × Free cap r.0 t.0

  deallocate-null : (p : MemoryPool) → deallocate cap p none ≡ some p
  unfolding deallocate
  deallocate-null p = refl

  pool_call-Agrees :
      cap < u32_mod
      → (p : MemoryPool) (l : List ℕ) (c : PoolCall) → Free cap p l
      → Agrees (pool_call p c) (stack_call l c)
  unfolding pool_call stack_call Agrees
  pool_call-Agrees small p [] take_slot f = rw (allocate-none cap p f) (refl, f)
  pool_call-Agrees small p (i ∷ l) take_slot f = allocate-some cap small p i l f
  pool_call-Agrees small p [] (give_back none) f = rw (deallocate-null p, pool_call) (refl, f)
  pool_call-Agrees small p (i ∷ l) (give_back none) f = rw (deallocate-null p, pool_call) (refl, f)
  pool_call-Agrees small p l (give_back (some i)) f = elim (Bool-cases (leb cap i)) [
    | inl t ↦ rw (t, deallocate-none cap p i l f (inl (ground (arith, t))), pool_call) tt
    | inr t ↦ elim (Bool-cases (occurs i l == 0)) [
      | inl o ↦
          let r = deallocate-some cap small p i l f (ground (arith, t)) (ground (arith, o)) in
          rw (t, o, r.1.0, pool_call) (refl, r.1.1)
      | inr o ↦ rw (t, o, deallocate-none cap p i l f (inr (ground (arith, o))), pool_call) tt
    ]
  ]

  continue_with-Agrees :
      (f : MemoryPool → List (Option (Option ℕ))) (g : List ℕ → List (Option (Option ℕ)))
      → ((p : MemoryPool) (l : List ℕ) → Free cap p l → f p ≡ g l)
      → (a : Option (MemoryPool × Option ℕ)) (b : Option (List ℕ × Option ℕ)) → Agrees a b
      → continue_with f a ≡ continue_with g b
  unfolding continue_with Agrees
  continue_with-Agrees f g same none none h = refl
  continue_with-Agrees f g same none (some r) h = absurd h
  continue_with-Agrees f g same (some r) none h = absurd h
  continue_with-Agrees f g same (some r) (some t) (e, free) = rw (e, same r.0 t.0 free) refl

  answers-Free :
      cap < u32_mod
      → (p : MemoryPool) (l : List ℕ) (cs : List PoolCall) → Free cap p l
      → answers pool_call p cs ≡ answers stack_call l cs
  unfolding answers
  answers-Free small p l [] f = refl
  answers-Free small p l (c ∷ cs) f =
      continue_with-Agrees _ _ (λ q k h. answers-Free small q k cs h) _ _
        (pool_call-Agrees small p l c f)

  -- A new pool with fewer than 2^32 slots answers every sequence of allocations and deallocations
  -- as a stack of its free slots does: an allocation returns the free slot that was freed last, or
  -- fails if none is left; a deallocation of the null pointer does nothing, of a slot in use frees
  -- it, and of any other fails its assertion.
  pub answers-new_pool :
      cap < u32_mod
      → (cs : List PoolCall)
      → answers pool_call (new_pool cap) cs ≡ answers stack_call (run_from cap 0) cs
  answers-new_pool small cs =
      answers-Free small (new_pool cap) (run_from cap 0) cs (new_pool-Free cap small)
