-- ===== src/Benchmark/Ranks.antt =====
-- What `benchmark_p99` of `benchmark_p99.hpp` reports of its samples.
use hft_sdk.Base.{
  Bool-cases, DoubleOps, List, [], ap, append_assoc, arith, drop, get_or, if◌then◌else◌, inl, inr,
  leb_ℤ, length, length-append, ltb, ltb_ℤ, min, pos, pos_part, refl, set, subst, suc, sym, take,
  zero, ℕ, ℤ, ◌++◌, ◌-◌, ◌<◌, ◌==◌, ◌∙◌, ◌∷◌, ◌≡◌, ◌≤◌,
}
use hft_sdk.Benchmark.{
  BenchStats, Bench, clamp_index, warm_up, timed, measure, rank_index, report, benchmark_p99,
}
use hft_sdk.Benchmark.Sorting.{IsSort, IsRank, length-IsSort, IsAscending-IsRank}

set-append :
    (pre : List ℤ) (r d : ℤ) (rest : List ℤ)
    → set (pre ++ r ∷ rest) (length pre) d ≡ (pre ++ d ∷ []) ++ rest
set-append [] r d rest = refl
set-append (x ∷ pre) r d rest = ap (λ l. x ∷ l) (set-append pre r d rest)

take-append : (xs ys : List ℤ) (n : ℕ) → n ≡ length xs → take n (xs ++ ys) ≡ xs
take-append [] ys zero e = refl
take-append [] ys (suc n) e = absurd (omega (arith, e))
take-append (x ∷ xs) ys zero e = absurd (omega (arith, e))
take-append (x ∷ xs) ys (suc n) e = ap (λ l. x ∷ l) (take-append xs ys n (omega (arith, e)))

drop-append : (xs ys : List ℤ) (n : ℕ) → n ≡ length xs → drop n (xs ++ ys) ≡ ys
drop-append [] ys zero e = refl
drop-append [] ys (suc n) e = absurd (omega (arith, e))
drop-append (x ∷ xs) ys zero e = absurd (omega (arith, e))
drop-append (x ∷ xs) ys (suc n) e = drop-append xs ys n (omega (arith, e))

clamp_index_lt : (idx n : ℕ) → 0 < n → clamp_index idx n < n
unfolding clamp_index
clamp_index_lt idx n h = ground arith

module _ {S : Type 0} (bench : Bench S) where
  open bench use {sort}

  -- The times of `n` calls, one after the other.
  unfoldable pub samples : ℕ → S → List ℤ
  samples zero s = []
  samples (suc n) s = let (s', diff) = timed bench s in diff ∷ samples n s'

  length-samples : (n : ℕ) (s : S) → length (samples n s) ≡ n
  unfolding samples
  length-samples zero s = refl
  length-samples (suc n) s = ap suc (length-samples n _)

  measure-samples :
      (n i : ℕ) (pre rest : List ℤ) (s : S)
      → i ≡ length pre
      → n ≤ length rest
      → (measure bench n i (pre ++ rest) s).0 ≡ pre ++ (samples n s ++ drop n rest)
  unfolding measure samples
  measure-samples zero i pre rest s e h = refl
  measure-samples (suc n) i pre [] s e h = absurd (omega (arith, h))
  measure-samples (suc n) i pre (r ∷ rest) s e h =
      let (s', diff) = timed bench s in
      ap (λ j. (measure bench n (suc j) (set (pre ++ r ∷ rest) j diff) s').0) e
      ∙ ap (λ l. (measure bench n (suc (length pre)) l s').0) (set-append pre r diff rest)
      ∙ measure-samples n (suc (length pre)) (pre ++ diff ∷ []) rest s'
          (omega (arith, length-append pre (diff ∷ []))) (omega arith)
      ∙ append_assoc pre (diff ∷ []) _

  module _ {D : Type 0} (ops : DoubleOps D) (point_99 point_999 : D) where
    -- A run of the benchmark over `n` measured calls from the state `s`.
    pub record IsBenched (n : ℕ) (s : S) (buffer : List ℤ) (out : BenchStats × List ℤ × S)
        : Type 0 where
      pub all_used : out.0.samples ≡ n
      pub p99 : 0 < n → IsRank (samples n s) (rank_index ops point_99 n) out.0.p99_ns
      pub p999 : 0 < n → IsRank (samples n s) (rank_index ops point_999 n) out.0.p999_ns
      pub stored : 0 < n → out.1 ≡ sort (samples n s) ++ drop n buffer
      pub none_measured :
          n ≡ 0 → (out.0.p99_ns ≡ pos 0) × (out.0.p999_ns ≡ pos 0) × (out.1 ≡ buffer)

    abbrev value : D → ℕ → S → ℤ
    value p n s = get_or (sort (samples n s)) (rank_index ops p n) (pos 0)

    sorted-IsRank :
        IsSort sort
        → (p : D) (n : ℕ) (s : S) → 0 < n
        → IsRank (samples n s) (rank_index ops p n) (value p n s)
    sorted-IsRank h p n s lt =
        let len = length-IsSort sort h (samples n s) in
        let inside =
          clamp_index_lt (pos_part (ops.truncate (ops.mul p (ops.of_int (pos (n - 1)))))) n lt in
        let r =
          IsAscending-IsRank (pos 0) (sort (samples n s)) (rank_index ops p n) (h.ascending _)
            (omega (arith, inside, len, length-samples n s)) in
        record {
          below = omega (arith, r.below, h.same (λ x. ltb_ℤ x (value p n s)) (samples n s));
          reached = omega (arith, r.reached, h.same (λ x. leb_ℤ x (value p n s)) (samples n s));
        }

    report-IsBenched :
        IsSort sort
        → (n : ℕ) (s s' : S) (buffer : List ℤ) → n ≤ length buffer
        → IsBenched n s buffer
            (report bench ops point_99 point_999 n (samples n s ++ drop n buffer) s')
    unfolding report samples
    report-IsBenched h n s s' buffer le =
        let first = take-append (samples n s) (drop n buffer) n (sym (length-samples n s)) in
        let others = drop-append (samples n s) (drop n buffer) n (sym (length-samples n s)) in
        elim (Bool-cases (n == 0)) [
          | inl q ↦
              let z : n ≡ 0 = ground (arith, q) in
              rw q (record {
                all_used = sym z;
                p99 = λ lt. absurd (omega (arith, z, lt));
                p999 = λ lt. absurd (omega (arith, z, lt));
                stored = λ lt. absurd (omega (arith, z, lt));
                none_measured = λ e. (refl, refl, ap (λ k. samples k s ++ drop k buffer) z);
              })
          | inr q ↦
              rw (q, first, others)
                (record {
                  all_used = refl;
                  p99 = sorted-IsRank h point_99 n s;
                  p999 = sorted-IsRank h point_999 n s;
                  stored = λ lt. refl;
                  none_measured = λ e. absurd (ground (arith, q, e));
                })
        ]

    -- With a sort that puts its values in order, the benchmark uses as many samples as were asked
    -- for, at most as many as the buffer holds; each of the two percentiles stands at its clamped
    -- index in the order of these samples; the buffer starts with the samples in order and keeps
    -- the rest; and without a sample the percentiles are zero and the buffer is kept.
    pub benchmark_p99-IsBenched :
        IsSort sort
        → (buffer : List ℤ) (iterations warmup_iterations : ℕ) (s : S)
        → let n = min (length buffer) iterations in
          IsBenched n
            (warm_up bench warmup_iterations s)
            buffer
            (benchmark_p99 bench ops point_99 point_999 buffer iterations warmup_iterations s)
    unfolding benchmark_p99
    benchmark_p99-IsBenched h buffer iterations warmup_iterations s =
        let n = min (length buffer) iterations in
        let s1 = warm_up bench warmup_iterations s in
        let s2 = (measure bench n 0 buffer s1).1 in
        let least : (if ltb (length buffer) iterations then length buffer else iterations) ≡ n =
          ground arith in
        let filled = measure-samples n 0 [] buffer s1 refl (omega arith) in
        rw least (
          subst (λ l. IsBenched n s1 buffer (report bench ops point_99 point_999 n l s2))
            (sym filled) (report-IsBenched h n s1 s2 buffer (omega arith)))
