-- ===== src/Histogram/Tests.antt =====
-- Three samples in four buckets of ten, with integers for `double`, and the witnesses of the theorems.
use hft_sdk.Base.{
  DoubleOps, List, [], ltb_ℤ, neg_part, negsuc, pos, pos_part, refl, ℤ, ◌*ℤ◌, ◌+ℤ◌, ◌-ℤ◌, ◌/ℤ◌, ◌∷◌,
  ◌≡◌,
}
use hft_sdk.Histogram.{
  LatencyHistogram, bucket_of, scan_buckets, new_histogram, record_latency, target_rank, percentile,
}
use hft_sdk.Histogram.Percentiles.{record_all}
use hft_sdk.Histogram.Extremes.{Extremes, record_all-Extremes}

-- The rank of a sample is `p` percent of the total, rounded up to at least one.
abbrev percents : DoubleOps ℤ
percents = record {
  of_int = λ a. a;
  add = λ a b. a +ℤ b;
  sub = λ a b. a -ℤ b;
  mul = λ a b. a *ℤ b /ℤ pos 100;
  div = λ a b. a /ℤ b;
  less = λ a b. ltb_ℤ a b;
  ceil = λ a. a;
  truncate = λ a. a;
}

abbrev samples : List ℤ
samples = pos 25 ∷ negsuc 4 ∷ pos 99 ∷ []

abbrev recorded : LatencyHistogram ℤ
recorded = record_all 4 10 percents (new_histogram 4 10 percents) samples

median_bucket : percentile 4 10 percents recorded (pos 67) ≡ pos 25
unfolding percentile scan_buckets target_rank new_histogram record_latency bucket_of pos_part
    neg_part ◌*ℤ◌ ◌/ℤ◌ ◌+ℤ◌
median_bucket = refl

record_all-Extremes_example : Extremes 4 10 percents recorded samples
record_all-Extremes_example = record_all-Extremes 4 10 percents samples
