-- ===== src/Benchmark.antt =====
-- The benchmark of `src/benchmark_p99.hpp`. The callable and the clock are parameters over a state `S`
-- of the machine, and so is `std::ranges::sort`.
pub mod Ranks
pub mod Sorting
pub mod Tests
use hft_sdk.Base.{
  DoubleOps, List, drop, get_or, if◌then◌else◌, leb, length, ltb, pos, pos_part, set, suc, take,
  zero, ℕ, ℤ, ◌++◌, ◌-ℤ◌, ◌-◌, ◌==◌,
}

-- `LatencyStats` of the benchmark.
pub record BenchStats : Type 0 where
  pub p99_ns : ℤ
  pub p999_ns : ℤ
  pub samples : ℕ

unfoldable pub clamp_index : ℕ → ℕ → ℕ
clamp_index idx size = if leb size idx then (if size == 0 then 0 else size - 1) else idx

-- `static_cast<std::size_t>(p * (n - 1))`, clamped.
abbrev pub rank_index : {D : Type 0} → DoubleOps D → D → ℕ → ℕ
rank_index ops p n = clamp_index (pos_part (ops.truncate (ops.mul p (ops.of_int (pos (n - 1)))))) n

-- `now` is the time of the steady clock in nanoseconds, and `invoke` is `std::invoke(f, args...)`.
pub record Bench (S : Type 0) : Type 0 where
  pub invoke : S → S
  pub now : S → S × ℤ
  pub sort : List ℤ → List ℤ

module _ {S : Type 0} (bench : Bench S) where
  open bench use {invoke, now, sort}

  unfoldable pub warm_up : ℕ → S → S
  warm_up zero s = s
  warm_up (suc n) s = warm_up n (invoke s)

  -- One round of the measurement.
  unfoldable pub timed : S → S × ℤ
  timed s = let (s1, t0) = now s in let (s2, t1) = now (invoke s1) in (s2, t1 -ℤ t0)

  -- The loop of the measurement, with `n` rounds left and the next index `i`.
  unfoldable pub measure : ℕ → ℕ → List ℤ → S → List ℤ × S
  measure zero i buffer s = (buffer, s)
  measure (suc n) i buffer s = let (s', diff) = timed s in measure n (suc i) (set buffer i diff) s'

  module _ {D : Type 0} (ops : DoubleOps D) (point_99 point_999 : D) where
    -- The end of `benchmark_p99` after the measured calls, with the buffer and the state that it leaves.
    unfoldable pub report : ℕ → List ℤ → S → BenchStats × List ℤ × S
    report n measured s =
        let sorted = sort (take n measured) in
        if n == 0 then (record { p99_ns = pos 0; p999_ns = pos 0; samples = 0 }, measured, s) else (
          record {
            p99_ns = get_or sorted (rank_index ops point_99 n) (pos 0);
            p999_ns = get_or sorted (rank_index ops point_999 n) (pos 0);
            samples = n;
          },
          sorted ++ drop n measured,
          s,
        )

    unfoldable pub benchmark_p99 : List ℤ → ℕ → ℕ → S → BenchStats × List ℤ × S
    benchmark_p99 buffer iterations warmup_iterations s =
        let n = if ltb (length buffer) iterations then length buffer else iterations in
        let (measured, s') = measure n 0 buffer (warm_up warmup_iterations s) in
        report n measured s'
