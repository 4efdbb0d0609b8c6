-- ===== src/LatencyModel/Bounds.antt =====
-- The samples of `latency_model.cpp`, whatever the generator draws.
use hft_sdk.Base.{
  Bool-cases, DoubleOps, arith, false, inl, inr, neg_part, pos_part, refl, u64_mod, ℕ, ℤ, ◌%◌, ◌+◌,
  ◌≡◌, ◌≤ℤ◌, ◌≤◌,
}
use hft_sdk.Types.{TraderId}
use hft_sdk.LatencyModel.{
  RandomSource, LatencyProfile, LatencyBreakdown, LatencyModel, profile_or, sample_gaussian_tail,
  sample, sample_round_trip,
}

-- What the model relies on of `double`, where no value is NaN: the cast to an integer keeps the order.
pub record KeepsOrder {D : Type 0} (ops : DoubleOps D) : Type 0 where
  pub keeps : (a b : D) → ops.less a b ≡ false → ops.truncate b ≤ℤ ops.truncate a

pos_part_mono : (a b : ℤ) → a ≤ℤ b → pos_part a ≤ pos_part b
unfolding pos_part neg_part
pos_part_mono a b h = ground arith

module _ {R D : Type 0} (ops : DoubleOps D) (source : RandomSource R D) where
  -- The least sample of a profile.
  abbrev pub floor_of : LatencyProfile D → ℕ
  floor_of profile = pos_part (ops.truncate profile.min_ns)

  floor-sample :
      KeepsOrder ops
      → (profile : LatencyProfile D) (m : LatencyModel R D)
      → floor_of profile ≤ (sample ops source profile m).1
  unfolding sample
  floor-sample o profile m =
      let drawn = (sample_gaussian_tail ops source profile m.rng).1 in
      elim (Bool-cases (ops.less drawn profile.min_ns)) [
        | inl e ↦ rw e (omega arith)
        | inr e ↦ rw e (pos_part_mono _ _ (o.keeps drawn profile.min_ns e))
      ]

  -- What a round trip returns.
  pub record Trip (trader : TraderId) (m : LatencyModel R D)
      (out : LatencyModel R D × LatencyBreakdown) : Type 0 where
    pub inbound :
        floor_of (profile_or ops source m.network_profile trader m) ≤ out.1.network_inbound_ns
    pub matching : floor_of m.matching_profile ≤ out.1.matching_engine_ns
    pub outbound :
        floor_of (profile_or ops source m.network_profile trader m) ≤ out.1.network_outbound_ns
    pub dissemination : floor_of m.md_profile ≤ out.1.md_dissemination_ns
    pub total :
        out.1.total_ns
        ≡ (out.1.network_inbound_ns + out.1.matching_engine_ns + out.1.network_outbound_ns)
          % u64_mod
    pub count : out.0.samples_generated % u64_mod ≡ (m.samples_generated + 4) % u64_mod

  -- Where the cast of doubles to integers keeps their order, every component of a sampled round
  -- trip is at least the minimum of its profile, the trader's own or else that of the network for
  -- the two ways through the network, whatever the generator draws; the total is the sum of the
  -- three components other than the dissemination, and four samples are counted, both modulo 2^64.
  pub sample_round_trip-Trip :
      KeepsOrder ops
      → (trader : TraderId) (m : LatencyModel R D)
      → Trip trader m (sample_round_trip ops source trader m)
  unfolding sample_round_trip sample
  sample_round_trip-Trip o trader m =
      let network = profile_or ops source m.network_profile trader m in
      let m1 = (sample ops source network m).0 in
      let m2 = (sample ops source m.matching_profile m1).0 in
      let m3 = (sample ops source network m2).0 in
      record {
        inbound = floor-sample o network m;
        matching = floor-sample o m.matching_profile m1;
        outbound = floor-sample o network m2;
        dissemination = floor-sample o m.md_profile m3;
        total = refl;
        count = omega arith;
      }
