-- ===== src/LatencyModel/Tests.antt =====
-- A generator that counts, with integers for `double`, and the witness of the theorem.
use hft_sdk.Base.{integers, ltb_ℤ-false, pos, suc, ℕ, ℤ}
use hft_sdk.LatencyModel.{RandomSource, LatencyModel, new_latency_model, sample_round_trip}
use hft_sdk.LatencyModel.Bounds.{KeepsOrder, Trip, sample_round_trip-Trip}

abbrev counting : RandomSource ℕ ℤ
counting = record {
  seeded = λ n. n;
  reseed = λ n r. n;
  uniform = λ r. (suc r, pos r);
  normal = λ r. (suc r, pos r);
  exponential = λ r. (suc r, pos r);
}

integers-KeepsOrder : KeepsOrder integers
unfolding integers
integers-KeepsOrder = record { keeps = ltb_ℤ-false }

abbrev seeded_model : LatencyModel ℕ ℤ
seeded_model = new_latency_model integers counting 42

sample_round_trip-Trip_example :
    Trip integers counting 7 seeded_model (sample_round_trip integers counting 7 seeded_model)
sample_round_trip-Trip_example =
    sample_round_trip-Trip integers counting integers-KeepsOrder 7 seeded_model
