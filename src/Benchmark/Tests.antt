-- ===== src/Benchmark/Tests.antt =====
-- A run of the benchmark of `benchmark_p99.hpp` with a clock that the calls advance, and a sort.
use hft_sdk.Base.{
  All, All-map, Bool, Bool-cases, List, [], arith, if◌then◌else◌, inl, inr, integers, leb_ℤ, pos,
  refl, suc, true, ℕ, ℤ, ◌*ℤ◌, ◌*◌, ◌+ℤ◌, ◌-ℤ◌, ◌∙◌, ◌∷◌, ◌≡◌,
}
use hft_sdk.Benchmark.{Bench, benchmark_p99, clamp_index, measure, report, timed, warm_up}
use hft_sdk.Benchmark.Ranks.{IsBenched, benchmark_p99-IsBenched}
use hft_sdk.Benchmark.Sorting.{IsAscending, IsSort, count}

unfoldable put_in : ℤ → List ℤ → List ℤ
put_in x [] = x ∷ []
put_in x (y ∷ ys) = if leb_ℤ x y then x ∷ y ∷ ys else y ∷ put_in x ys

unfoldable put_in_order : List ℤ → List ℤ
put_in_order [] = []
put_in_order (x ∷ xs) = put_in x (put_in_order xs)

All-put_in : (P : ℤ → Type 0) (x : ℤ) (xs : List ℤ) → P x → All P xs → All P (put_in x xs)
unfolding put_in
All-put_in P x [] p h = (p, tt)
All-put_in P x (y ∷ ys) p h = elim (Bool-cases (leb_ℤ x y)) [
  | inl e ↦ rw e (p, h)
  | inr e ↦ rw e (h.0, All-put_in P x ys p h.1)
]

put_in-IsAscending : (x : ℤ) (xs : List ℤ) → IsAscending xs → IsAscending (put_in x xs)
unfolding put_in
put_in-IsAscending x [] h = (tt, tt)
put_in-IsAscending x (y ∷ ys) h = elim (Bool-cases (leb_ℤ x y)) [
  | inl e ↦
      let later =
        All-map (λ z. leb_ℤ y z ≡ true) (λ z. leb_ℤ x z ≡ true) ys (λ z q. ground (arith, e, q))
          h.0 in
      rw e ((e, later), h)
  | inr e ↦
      rw e (
        All-put_in (λ z. leb_ℤ y z ≡ true) x ys (ground (arith, e)) h.0,
        put_in-IsAscending x ys h.1,
      )
]

count-put_in : (t : ℤ → Bool) (x : ℤ) (xs : List ℤ) → count t (put_in x xs) ≡ count t (x ∷ xs)
unfolding put_in count
count-put_in t x [] = refl
count-put_in t x (y ∷ ys) = elim (Bool-cases (leb_ℤ x y)) [
  | inl e ↦ rw e refl
  | inr e ↦ rw e (ground (arith, count-put_in t x ys))
]

put_in_order-IsAscending : (xs : List ℤ) → IsAscending (put_in_order xs)
unfolding put_in_order
put_in_order-IsAscending [] = tt
put_in_order-IsAscending (x ∷ xs) =
    put_in-IsAscending x (put_in_order xs) (put_in_order-IsAscending xs)

count-put_in_order : (t : ℤ → Bool) (xs : List ℤ) → count t (put_in_order xs) ≡ count t xs
unfolding put_in_order count
count-put_in_order t [] = refl
count-put_in_order t (x ∷ xs) =
    count-put_in t x (put_in_order xs) ∙ ground (arith, count-put_in_order t xs)

put_in_order-IsSort : IsSort put_in_order
put_in_order-IsSort = record { ascending = put_in_order-IsAscending; same = count-put_in_order }

-- The state counts the calls, and the call numbered `k` takes `k` squared.
abbrev slowing : Bench (ℕ × ℤ)
slowing = record {
  invoke = λ s. (suc (s.0), s.1 +ℤ pos (s.0 * s.0));
  now = λ s. (s, s.1);
  sort = put_in_order;
}

-- Two measured calls after a warm-up of one, in a buffer of three.
two_calls :
    benchmark_p99 slowing integers (pos 1) (pos 0) (pos 7 ∷ pos 8 ∷ pos 9 ∷ []) 2 1 (0, pos 50) ≡ (
      record { p99_ns = pos 4; p999_ns = pos 1; samples = 2 },
      pos 1 ∷ pos 4 ∷ pos 9 ∷ [],
      (3, pos 55),
    )
unfolding benchmark_p99 clamp_index measure report timed warm_up put_in put_in_order integers ◌+ℤ◌
    ◌-ℤ◌ ◌*ℤ◌
two_calls = refl

benchmark_p99-IsBenched_example :
    IsBenched slowing integers
      (pos 1)
      (pos 0)
      2
      (warm_up slowing 1 (0, pos 50))
      (pos 7 ∷ pos 8 ∷ pos 9 ∷ [])
      (benchmark_p99 slowing integers (pos 1) (pos 0) (pos 7 ∷ pos 8 ∷ pos 9 ∷ []) 2 1 (0, pos 50))
benchmark_p99-IsBenched_example =
    benchmark_p99-IsBenched slowing integers (pos 1) (pos 0) put_in_order-IsSort
      (pos 7 ∷ pos 8 ∷ pos 9 ∷ []) 2 1 (0, pos 50)
