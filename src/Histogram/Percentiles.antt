-- ===== src/Histogram/Percentiles.antt =====
-- The samples of `latency_histogram.hpp` and what its percentiles say of them.
use hft_sdk.Base.{
  Bool, DoubleOps, List, [], false, get_or, length, ltb, pos, suc, true, ℕ, ℤ, ◌*◌, ◌+◌, ◌/◌, ◌<◌,
  ◌==◌, ◌∷◌, ◌≡◌, ◌≤◌,
}
use hft_sdk.Histogram.Edges.{is_under}
use hft_sdk.Histogram.{LatencyHistogram, bucket_of, record_latency}

abbrev pub one_where : Bool → ℕ
one_where true = 1
one_where false = 0

module _ (num_buckets width : ℕ) where
  -- How many samples are in a bucket, and in the buckets below it.
  unfoldable pub count_in : List ℤ → ℕ → ℕ
  count_in [] i = 0
  count_in (x ∷ xs) i = one_where (bucket_of num_buckets width x == i) + count_in xs i

  unfoldable pub count_below : List ℤ → ℕ → ℕ
  count_below [] i = 0
  count_below (x ∷ xs) i = one_where (ltb (bucket_of num_buckets width x) i) + count_below xs i

  -- How many samples are below the lower edge of a bucket.
  unfoldable pub count_under : List ℤ → ℕ → ℕ
  count_under [] i = 0
  count_under (x ∷ xs) i = one_where (is_under num_buckets width i x) + count_under xs i

  -- A value that stands for the bucket of the sample of the given rank.
  pub record IsRanked (xs : List ℤ) (rank : ℕ) (value : ℤ) : Type 0 where
    pub bucket : ℕ
    pub in_range : bucket < num_buckets
    pub stands_for : value ≡ pos (bucket * width + width / 2)
    pub not_below : count_below xs bucket < rank
    pub reached : rank ≤ count_below xs (suc bucket)
    pub not_under : count_under xs bucket < rank
    pub reached_edge : rank ≤ count_under xs (suc bucket)

  module _ {D : Type 0} (ops : DoubleOps D) where
    abbrev pub record_all : LatencyHistogram D → List ℤ → LatencyHistogram D
    record_all h [] = h
    record_all h (x ∷ xs) = record_latency num_buckets width ops (record_all h xs) x

    -- The counts of a histogram are those of the samples.
    record Counts (h : LatencyHistogram D) (xs : List ℤ) : Type 0 where
      cells : length h.buckets ≡ num_buckets
      counts : (i : ℕ) → i < num_buckets → get_or h.buckets i 0 ≡ count_in xs i
      total : h.total_samples ≡ length xs
