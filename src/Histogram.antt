-- ===== src/Histogram.antt =====
-- The latency histogram of `src/metrics/latency_histogram.hpp`. The type `D` and its operations stand
-- for `double`, and the two template parameters are arguments.
pub mod Edges
pub mod Extremes
pub mod Percentiles
pub mod Tests
use hft_sdk.Base.{
  DoubleOps, List, [], get_or, if◌then◌else◌, leb, ltb, ltb_ℤ, negsuc, pos, pos_part, replicate,
  set, suc, u64_mod, ℕ, ℤ, ◌%◌, ◌*◌, ◌+◌, ◌-◌, ◌/ℤ◌, ◌/◌, ◌==◌, ◌∷◌,
}

abbrev pub max_int64 : ℤ
max_int64 = pos 9223372036854775807

abbrev pub min_int64 : ℤ
min_int64 = negsuc 9223372036854775807

pub record LatencyHistogram (D : Type 0) : Type 0 where
  pub buckets : List ℕ
  pub total_samples : ℕ
  pub sum_ns : D
  pub min_ns : ℤ
  pub max_ns : ℤ

pub record LatencyStats : Type 0 where
  pub min_ns : ℤ
  pub max_ns : ℤ
  pub mean_ns : ℤ
  pub median_ns : ℤ
  pub p50_ns : ℤ
  pub p90_ns : ℤ
  pub p95_ns : ℤ
  pub p99_ns : ℤ
  pub p999_ns : ℤ
  pub samples : ℕ

module _ (num_buckets width : ℕ) where
  abbrev pub max_latency : ℤ
  max_latency = pos (num_buckets * width)

  -- The bucket of a sample, clamped to the range.
  unfoldable pub bucket_of : ℤ → ℕ
  bucket_of latency =
      let clamped = if ltb_ℤ latency (pos 0) then pos 0 else latency in
      let bucket = pos_part (clamped /ℤ pos width) in
      if leb num_buckets bucket then num_buckets - 1 else bucket

  -- The value that stands for a bucket.
  abbrev pub middle : ℕ → ℤ
  middle i = pos (i * width + width / 2)

  -- The loop of `percentile`, from the bucket `i` on.
  unfoldable pub scan_buckets : ℕ → List ℕ → ℕ → ℕ → ℤ
  scan_buckets target [] i cumulative = max_latency
  scan_buckets target (b ∷ bs) i cumulative =
      let next = (cumulative + b) % u64_mod in
      let rest = scan_buckets target bs (suc i) next in if leb target next then middle i else rest

  module _ {D : Type 0} (ops : DoubleOps D) where
    open ops use {of_int, add, mul, div, ceil, truncate}

    -- `reset`, which is also the constructor.
    unfoldable pub new_histogram : LatencyHistogram D
    new_histogram = record {
      buckets = replicate num_buckets 0;
      total_samples = 0;
      sum_ns = of_int (pos 0);
      min_ns = max_int64;
      max_ns = min_int64;
    }

    unfoldable pub record_latency : LatencyHistogram D → ℤ → LatencyHistogram D
    record_latency h latency =
        let bucket = bucket_of latency in
        record {
          buckets = set h.buckets bucket ((get_or h.buckets bucket 0 + 1) % u64_mod);
          total_samples = (h.total_samples + 1) % u64_mod;
          sum_ns = add h.sum_ns (of_int latency);
          min_ns = if ltb_ℤ latency h.min_ns then latency else h.min_ns;
          max_ns = if ltb_ℤ h.max_ns latency then latency else h.max_ns;
        }

    -- The rank of the sample that `percentile` looks for.
    unfoldable pub target_rank : ℕ → D → ℕ
    target_rank total p =
        let target = pos_part (truncate (ceil (mul (of_int (pos total)) p))) in
        if target == 0 then 1 else target

    unfoldable pub percentile : LatencyHistogram D → D → ℤ
    percentile h p =
        if h.total_samples == 0
        then pos 0
        else scan_buckets (target_rank h.total_samples p) h.buckets 0 0

    -- A literal such as 0.95, whose value is the nearest to 95 / 100.
    abbrev pub fraction : ℕ → ℕ → D
    fraction n d = div (of_int (pos n)) (of_int (pos d))

    unfoldable pub stats : LatencyHistogram D → LatencyStats
    stats h =
        let mean = truncate (div h.sum_ns (of_int (pos h.total_samples))) in
        record {
          samples = h.total_samples;
          min_ns = h.min_ns;
          max_ns = h.max_ns;
          mean_ns = if ltb 0 h.total_samples then mean else pos 0;
          p50_ns = percentile h (fraction 50 100);
          median_ns = percentile h (fraction 50 100);
          p90_ns = percentile h (fraction 90 100);
          p95_ns = percentile h (fraction 95 100);
          p99_ns = percentile h (fraction 99 100);
          p999_ns = percentile h (fraction 999 1000);
        }
