-- ===== src/MemoryPool/Built.antt =====
-- The free slots of a new pool of `memory_pool.hpp`.
use hft_sdk.Base.{
  Bool-cases, List, [], ap, arith, false, inl, inr, length, refl, subst, suc, sym, u32_mod, zero, ℕ,
  ◌+◌, ◌<◌, ◌==◌, ◌∙◌, ◌∷◌, ◌≡◌, ◌≢◌, ◌≤◌,
}
use hft_sdk.MemoryPool.{slot_at, build_slots, new_pool}
use hft_sdk.MemoryPool.Free.{
  Chain, Free, occurs, occurs-cons, occurs-cons_ne, occurs-cons_once, used,
}

build_slots-get :
    (n k j : ℕ)
    → k + n < u32_mod
    → j < n
    → slot_at (build_slots n k) j ≡ record { next_free = suc (k + j); in_use = false }
unfolding build_slots
build_slots-get zero k j small lt = absurd (omega arith)
build_slots-get (suc n) k zero small lt =
    ap (λ x. record { next_free = x; in_use = false }) (omega (arith, small))
build_slots-get (suc n) k (suc j) small lt =
    build_slots-get n (suc k) j (omega arith) (omega arith)
    ∙ ap (λ x. record { next_free = x; in_use = false }) (omega arith)

length-build_slots : (n k : ℕ) → length (build_slots n k) ≡ n
unfolding build_slots
length-build_slots zero k = refl
length-build_slots (suc n) k = ap suc (length-build_slots n (suc k))

used-build_slots : (n k : ℕ) → used (build_slots n k) ≡ 0
unfolding build_slots used
used-build_slots zero k = refl
used-build_slots (suc n) k = omega (arith, used-build_slots n (suc k))

-- `n` slots from `k` on.
unfoldable pub run_from : ℕ → ℕ → List ℕ
run_from zero k = []
run_from (suc n) k = k ∷ run_from n (suc k)

pub length-run_from : (n k : ℕ) → length (run_from n k) ≡ n
unfolding run_from
length-run_from zero k = refl
length-run_from (suc n) k = ap suc (length-run_from n (suc k))

occurs-run_from_lt : (n k j : ℕ) → j < k → occurs j (run_from n k) ≡ 0
unfolding run_from occurs
occurs-run_from_lt zero k j lt = refl
occurs-run_from_lt (suc n) k j lt =
    rw (occurs-cons_ne k j (run_from n (suc k)) (λ w. omega arith))
      (occurs-run_from_lt n (suc k) j (omega arith))

occurs-run_from_le : (n k j : ℕ) → occurs j (run_from n k) ≤ 1
unfolding run_from occurs
occurs-run_from_le zero k j = omega arith
occurs-run_from_le (suc n) k j =
    occurs-cons_once k j (run_from n (suc k)) (occurs-run_from_lt n (suc k) k (omega arith))
      (occurs-run_from_le n (suc k) j)

pub occurs-run_from : (n k j : ℕ) → k ≤ j → j < k + n → 0 < occurs j (run_from n k)
unfolding run_from
occurs-run_from zero k j le lt = absurd (omega arith)
occurs-run_from (suc n) k j le lt = elim (Bool-cases (k == j)) [
  | inl q ↦
      let w : k ≡ j = ground (arith, q) in
      subst (λ x. 0 < occurs x (k ∷ run_from n (suc k))) w
        (omega (arith, occurs-cons k (run_from n (suc k))))
  | inr q ↦
      let ne : k ≢ j = λ w. ground (arith, q, w) in
      rw (occurs-cons_ne k j (run_from n (suc k)) ne)
        (occurs-run_from n (suc k) j (ground (arith, q, le)) (omega arith))
]

pub occurs-run_from_ge : (n k j : ℕ) → k + n ≤ j → occurs j (run_from n k) ≡ 0
unfolding run_from occurs
occurs-run_from_ge zero k j le = refl
occurs-run_from_ge (suc n) k j le =
    rw (occurs-cons_ne k j (run_from n (suc k)) (λ w. omega arith))
      (occurs-run_from_ge n (suc k) j (omega arith))

pub build_slots-unused : (n k j : ℕ) → (slot_at (build_slots n k) j).in_use ≡ false
unfolding build_slots
build_slots-unused zero k j = refl
build_slots-unused (suc n) k zero = refl
build_slots-unused (suc n) k (suc j) = build_slots-unused n (suc k) j

module _ (cap : ℕ) where
  build_slots-next :
      (k : ℕ) → cap < u32_mod → k < cap → (slot_at (build_slots cap 0) k).next_free ≡ suc k
  build_slots-next k small lt =
      ap (λ s. s.next_free) (build_slots-get cap 0 k (omega arith) lt) ∙ omega arith

  Chain-run_from :
      (n k : ℕ) → cap < u32_mod → k + n ≡ cap → Chain cap (build_slots cap 0) k (run_from n k)
  unfolding run_from Chain
  Chain-run_from zero k small e = omega arith
  Chain-run_from (suc n) k small e = (
    refl,
    omega arith,
    rw (build_slots-next k small (omega arith)) (Chain-run_from n (suc k) small (omega arith)),
  )

  pub new_pool-Free : cap < u32_mod → Free cap (new_pool cap) (run_from cap 0)
  unfolding new_pool
  new_pool-Free small = record {
    chain = Chain-run_from cap 0 small (omega arith);
    once = occurs-run_from_le cap 0;
    flags = λ j lt.
        ap (λ s. s.in_use) (build_slots-get cap 0 j (omega (arith, small)) lt)
        ∙ ground (arith, occurs-run_from cap 0 j (omega arith) (omega (arith, lt)));
    cells = length-build_slots cap 0;
    count = omega (arith, length-run_from cap 0);
    held = sym (used-build_slots cap 0);
  }
