-- ===== src/Histogram/Extremes.antt =====
-- The least and the greatest sample of `latency_histogram.hpp`.
use hft_sdk.Base.{
  All, All-map, Bool-cases, DoubleOps, List, [], arith, if◌then◌else◌, inl, inr, ltb_ℤ, ltb_ℤ-false,
  ltb_ℤ-true, refl, subst, sym, ℕ, ℤ, ◌∷◌, ◌≡◌, ◌≤ℤ◌, ◌⊎◌,
}
use hft_sdk.Histogram.{LatencyHistogram, max_int64, min_int64, new_histogram, record_latency}
use hft_sdk.Histogram.Percentiles.{record_all}

-- A member of the list, or `d`.
abbrev pub IsAmong : ℤ → ℤ → List ℤ → Type 0
IsAmong d v [] = v ≡ d
IsAmong d v (x ∷ xs) = (v ≡ x) ⊎ IsAmong d v xs

IsAmong-cons :
    (d v w x : ℤ) (xs : List ℤ) → (v ≡ x) ⊎ (v ≡ w) → IsAmong d w xs → IsAmong d v (x ∷ xs)
IsAmong-cons d v w x xs (inl e) a = inl e
IsAmong-cons d v w x xs (inr e) a = inr (subst (λ y. IsAmong d y xs) (sym e) a)

least_of :
    (x w : ℤ) → let v = if ltb_ℤ x w then x else w in ((v ≡ x) ⊎ (v ≡ w)) × ((v ≤ℤ x) × (v ≤ℤ w))
least_of x w = elim (Bool-cases (ltb_ℤ x w)) [
  | inl t ↦ rw t (inl refl, (omega arith, omega (arith, ltb_ℤ-true x w t)))
  | inr t ↦ rw t (inr refl, (omega (arith, ltb_ℤ-false x w t), omega arith))
]

greatest_of :
    (x w : ℤ) → let v = if ltb_ℤ w x then x else w in ((v ≡ x) ⊎ (v ≡ w)) × ((x ≤ℤ v) × (w ≤ℤ v))
greatest_of x w = elim (Bool-cases (ltb_ℤ w x)) [
  | inl t ↦ rw t (inl refl, (omega arith, omega (arith, ltb_ℤ-true w x t)))
  | inr t ↦ rw t (inr refl, (omega (arith, ltb_ℤ-false w x t), omega arith))
]

module _ (num_buckets width : ℕ) where
  module _ {D : Type 0} (ops : DoubleOps D) where
    -- The extremes of a histogram of samples: bounds of them all, each a sample or the initial value.
    pub record Extremes (h : LatencyHistogram D) (xs : List ℤ) : Type 0 where
      pub bounds : All (λ x. (h.min_ns ≤ℤ x) × (x ≤ℤ h.max_ns)) xs
      pub least : IsAmong max_int64 h.min_ns xs
      pub greatest : IsAmong min_int64 h.max_ns xs

    -- Every recorded sample is between the minimum and the maximum of the histogram, and each of
    -- these is a sample or the value that it had at first.
    pub record_all-Extremes :
        (xs : List ℤ)
        → Extremes (record_all num_buckets width ops (new_histogram num_buckets width ops) xs) xs
    unfolding new_histogram record_latency
    record_all-Extremes [] = record { bounds = tt; least = refl; greatest = refl }
    record_all-Extremes (x ∷ xs) =
        let e = record_all-Extremes xs in
        let h = record_all num_buckets width ops (new_histogram num_buckets width ops) xs in
        let (lo, l) = least_of x h.min_ns in
        let (hi, k) = greatest_of x h.max_ns in
        record {
          bounds = (
            (l.0, k.0),
            All-map (λ y. (h.min_ns ≤ℤ y) × (y ≤ℤ h.max_ns)) _ xs
                (λ y b. (omega (arith, b.0, l.1), omega (arith, b.1, k.1))) e.bounds,
          );
          least = IsAmong-cons max_int64 _ h.min_ns x xs lo e.least;
          greatest = IsAmong-cons min_int64 _ h.max_ns x xs hi e.greatest;
        }
