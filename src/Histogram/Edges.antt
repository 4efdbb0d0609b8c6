-- ===== src/Histogram/Edges.antt =====
-- The buckets of `latency_histogram.hpp` as ranges of the samples.
use hft_sdk.Base.{
  Bool, Bool-cases, ap, arith, false, if◌then◌else◌, inl, inr, leb, ltb, ltb_ℤ, neg_part, negsuc,
  pos, pos_part, refl, sym, true, ℕ, ℤ, ◌&&◌, ◌*◌, ◌-◌, ◌/ℤ◌, ◌/◌, ◌<◌, ◌==◌, ◌||◌, ◌∙◌, ◌≡◌,
}
use native.Mathlib.Nat.{div-lt_iff_lt-mul, mul-pos}
use hft_sdk.Histogram.{bucket_of}

module _ (num_buckets width : ℕ) where
  -- The sample belongs below the bucket `i`, which starts at `i * width`: no sample is below the first
  -- bucket, and all are below the end of the last one, or below every later bucket if these have no width.
  abbrev pub is_under : ℕ → ℤ → Bool
  is_under i x = ltb 0 i && (leb num_buckets i || (width == 0 || ltb_ℤ x (pos (i * width))))

  -- For a number in the place of the quotient of the clamped sample.
  clamped_under :
      (a i : ℕ)
      → 0 < num_buckets
      → ltb (if leb num_buckets (a / width) then num_buckets - 1 else a / width) i
        ≡ (ltb 0 i && (leb num_buckets i || (width == 0 || ltb a (i * width))))
  clamped_under a i n = elim (Bool-cases (width == 0)) [
    | inl e ↦
        let z : width ≡ 0 = ground (arith, e) in
        let q : a / width ≡ 0 = ap (λ w. a / w) z ∙ omega arith in rw (e, q) (ground (arith, n))
    | inr e ↦
        let h = div-lt_iff_lt-mul {k = width} {x = a} {y = i} (ground (arith, e)) in
        rw e (elim (Bool-cases (ltb (a / width) i)) [
          | inl f ↦ let g : a < i * width = h.0 (ground (arith, f)) in ground (arith, f, g, n)
          | inr f ↦ elim (Bool-cases (ltb a (i * width))) [
            | inl g ↦ absurd (ground (arith, f, h.1 (ground (arith, g))))
            | inr g ↦ rw g (ground (arith, f, n))
          ]
        ])
  ]

  -- Zero is below the edges that are above it, and so is a negative number.
  under_zero :
      (a i : ℕ)
      → (ltb 0 i && (leb num_buckets i || (width == 0 || ltb 0 (i * width))))
        ≡ is_under i (negsuc a)
  unfolding pos_part neg_part
  under_zero a i = elim (Bool-cases (ltb 0 i)) [
    | inr f ↦ rw f refl
    | inl f ↦ elim (Bool-cases (width == 0)) [
      | inl e ↦ rw e refl
      | inr e ↦
          let g : 0 < i * width = mul-pos (ground (arith, f)) (ground (arith, e)) in
          let t : ltb 0 (i * width) ≡ true = ground (arith, g) in
          let u : ltb_ℤ (negsuc a) (pos (i * width)) ≡ true = ground arith in
          ap (λ x. ltb 0 i && (leb num_buckets i || (width == 0 || x))) (t ∙ sym u)
    ]
  ]

  pub bucket_of-is_under :
      (x : ℤ) (i : ℕ) → 0 < num_buckets → ltb (bucket_of num_buckets width x) i ≡ is_under i x
  unfolding bucket_of ◌/ℤ◌ pos_part neg_part
  bucket_of-is_under (pos a) i n =
      let kept : ltb_ℤ (pos a) (pos 0) ≡ false = ground arith in
      let same : ltb a (i * width) ≡ ltb_ℤ (pos a) (pos (i * width)) = ground arith in
      rw (kept, bucket_of)
        (clamped_under a i n ∙ ap (λ t. ltb 0 i && (leb num_buckets i || (width == 0 || t))) same)
  bucket_of-is_under (negsuc a) i n =
      let cut : ltb_ℤ (negsuc a) (pos 0) ≡ true = ground arith in
      rw (cut, bucket_of) (clamped_under 0 i n ∙ under_zero a i)
