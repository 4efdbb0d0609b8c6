-- ===== src/LatencyModel.antt =====
-- The latency model of `src/latency/latency_model.hpp` and `src/latency/latency_model.cpp`. The type `D`
-- and its operations stand for `double`, and the type `R` and its draws for the generator of `<random>`
-- with the states of the three distributions.
pub mod Bounds
pub mod Tests
use hft_sdk.Base.{
  DoubleOps, List, [], if◌then◌else◌, insert, lookup, none, pos, pos_part, some, u64_mod, ℕ, ◌%◌,
  ◌+◌,
}
use hft_sdk.Types.{TraderId}

-- `mt19937_64` with the distributions that draw from it. `reseed` is `seed` of the generator.
pub record RandomSource (R D : Type 0) : Type 0 where
  pub seeded : ℕ → R
  pub reseed : ℕ → R → R
  pub uniform : R → R × D
  pub normal : R → R × D
  pub exponential : R → R × D

pub record LatencyProfile (D : Type 0) : Type 0 where
  pub mean_ns : D
  pub stddev_ns : D
  pub p99_ns : D
  pub p999_ns : D
  pub tail_prob : D
  pub min_ns : D

pub record LatencyBreakdown : Type 0 where
  pub network_inbound_ns : ℕ
  pub matching_engine_ns : ℕ
  pub network_outbound_ns : ℕ
  pub md_dissemination_ns : ℕ
  pub total_ns : ℕ

pub record LatencyModel (R D : Type 0) : Type 0 where
  pub seed : ℕ
  pub rng : R
  pub network_profile : LatencyProfile D
  pub matching_profile : LatencyProfile D
  pub md_profile : LatencyProfile D
  pub default_client_profile : LatencyProfile D
  pub client_profiles : List (TraderId × LatencyProfile D)
  pub samples_generated : ℕ

module _ {R D : Type 0} (ops : DoubleOps D) (source : RandomSource R D) where
  open ops use {of_int, add, sub, mul, div, less, truncate}
  open source use {seeded, reseed, uniform, normal, exponential}

  abbrev pub whole : ℕ → D
  whole n = of_int (pos n)

  abbrev pub network_default : LatencyProfile D
  network_default = record {
    mean_ns = whole 5000;
    stddev_ns = whole 1000;
    p99_ns = whole 30000;
    p999_ns = whole 100000;
    tail_prob = div (whole 1) (whole 100);
    min_ns = whole 500;
  }

  abbrev pub new_latency_model : ℕ → LatencyModel R D
  new_latency_model seed = record {
    seed = seed;
    rng = seeded seed;
    network_profile = network_default;
    matching_profile = record {
      mean_ns = whole 500;
      stddev_ns = whole 100;
      p99_ns = whole 2000;
      p999_ns = whole 10000;
      tail_prob = div (whole 5) (whole 1000);
      min_ns = whole 100;
    };
    md_profile = record {
      mean_ns = whole 2000;
      stddev_ns = whole 500;
      p99_ns = whole 10000;
      p999_ns = whole 50000;
      tail_prob = div (whole 1) (whole 100);
      min_ns = whole 200;
    };
    default_client_profile = network_default;
    client_profiles = [];
    samples_generated = 0;
  }

  abbrev pub set_client_profile : TraderId → LatencyProfile D → LatencyModel R D → LatencyModel R D
  set_client_profile trader profile m = record m {
    client_profiles = insert trader profile m.client_profiles;
  }

  abbrev pub profile_or : LatencyProfile D → TraderId → LatencyModel R D → LatencyProfile D
  profile_or other trader m = elim (lookup trader m.client_profiles) [
    | none ↦ other
    | some profile ↦ profile
  ]

  abbrev pub get_client_profile : TraderId → LatencyModel R D → LatencyProfile D
  get_client_profile trader m = profile_or m.default_client_profile trader m

  abbrev pub set_network_profile : LatencyProfile D → LatencyModel R D → LatencyModel R D
  set_network_profile profile m = record m { network_profile = profile }

  abbrev pub set_matching_profile : LatencyProfile D → LatencyModel R D → LatencyModel R D
  set_matching_profile profile m = record m { matching_profile = profile }

  abbrev pub set_md_profile : LatencyProfile D → LatencyModel R D → LatencyModel R D
  set_md_profile profile m = record m { md_profile = profile }

  abbrev pub set_seed : ℕ → LatencyModel R D → LatencyModel R D
  set_seed seed m = record m { seed = seed; rng = reseed seed m.rng }

  unfoldable pub sample_gaussian_tail : LatencyProfile D → R → R × D
  sample_gaussian_tail profile rng =
      let (rng', u) = uniform rng in
      if less profile.tail_prob u
      then (let (next, z) = normal rng' in (next, add profile.mean_ns (mul z profile.stddev_ns)))
      else (let tail_scale = div (sub profile.p99_ns profile.mean_ns) (div (whole 23) (whole 10)) in
          let (next, x) = exponential rng' in (next, add profile.mean_ns (mul x tail_scale)))

  -- `std::max`.
  abbrev pub max_double : D → D → D
  max_double a b = if less a b then b else a

  unfoldable pub sample : LatencyProfile D → LatencyModel R D → LatencyModel R D × ℕ
  sample profile m =
      let (rng, drawn) = sample_gaussian_tail profile m.rng in
      (
        record m { rng = rng; samples_generated = (m.samples_generated + 1) % u64_mod },
        pos_part (truncate (max_double drawn profile.min_ns)),
      )

  abbrev pub sample_network_latency : TraderId → LatencyModel R D → LatencyModel R D × ℕ
  sample_network_latency trader m = sample (profile_or m.network_profile trader m) m

  abbrev pub sample_matching_latency : LatencyModel R D → LatencyModel R D × ℕ
  sample_matching_latency m = sample m.matching_profile m

  abbrev pub sample_md_latency : LatencyModel R D → LatencyModel R D × ℕ
  sample_md_latency m = sample m.md_profile m

  unfoldable pub sample_round_trip :
      TraderId → LatencyModel R D → LatencyModel R D × LatencyBreakdown
  sample_round_trip trader m =
      let (m1, inbound) = sample_network_latency trader m in
      let (m2, matching) = sample_matching_latency m1 in
      let (m3, outbound) = sample_network_latency trader m2 in
      let (m4, dissemination) = sample_md_latency m3 in
      (
        m4,
        record {
          network_inbound_ns = inbound;
          matching_engine_ns = matching;
          network_outbound_ns = outbound;
          md_dissemination_ns = dissemination;
          total_ns = (inbound + matching + outbound) % u64_mod;
        },
      )

  unfoldable pub add_jitter : ℕ → D → LatencyModel R D → LatencyModel R D × ℕ
  add_jitter base_ns jitter_fraction m =
      let (rng, z) = normal m.rng in
      let jitter = mul (mul z (whole base_ns)) jitter_fraction in
      (
        record m { rng = rng },
        pos_part (truncate (max_double (add (whole base_ns) jitter) (of_int (pos 0)))),
      )
