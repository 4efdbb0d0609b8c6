-- ===== src/Benchmark/Sorting.antt =====
-- What `benchmark_p99.hpp` relies on of `std::ranges::sort`, and the ranks of a list in ascending order.
use hft_sdk.Base.{
  All, Bool, List, [], ap, arith, false, get_or, if◌then◌else◌, leb_ℤ, length, ltb_ℤ, refl, suc,
  sym, true, zero, ℕ, ℤ, ◌<◌, ◌∙◌, ◌∷◌, ◌≡◌, ◌≤◌,
}

-- How many entries pass a test.
unfoldable pub count : (ℤ → Bool) → List ℤ → ℕ
count t [] = 0
count t (x ∷ xs) = if t x then suc (count t xs) else count t xs

abbrev pub IsAscending : List ℤ → Type 0
IsAscending [] = Unit
IsAscending (x ∷ xs) = All (λ y. leb_ℤ x y ≡ true) xs × IsAscending xs

-- The result is in ascending order and holds the same values as often.
pub record IsSort (sort : List ℤ → List ℤ) : Type 0 where
  pub ascending : (xs : List ℤ) → IsAscending (sort xs)
  pub same : (t : ℤ → Bool) (xs : List ℤ) → count t (sort xs) ≡ count t xs

-- The value stands at the index `i` of the list, put in order.
pub record IsRank (xs : List ℤ) (i : ℕ) (v : ℤ) : Type 0 where
  pub below : count (λ x. ltb_ℤ x v) xs ≤ i
  pub reached : i < count (λ x. leb_ℤ x v) xs

count-all : (xs : List ℤ) → count (λ x. true) xs ≡ length xs
unfolding count
count-all [] = refl
count-all (x ∷ xs) = ap suc (count-all xs)

pub length-IsSort :
    (sort : List ℤ → List ℤ) → IsSort sort → (xs : List ℤ) → length (sort xs) ≡ length xs
length-IsSort sort h xs = sym (count-all (sort xs)) ∙ h.same (λ x. true) xs ∙ count-all xs

count-above : (x : ℤ) (xs : List ℤ) → All (λ y. leb_ℤ x y ≡ true) xs → count (λ y. ltb_ℤ y x) xs ≡ 0
unfolding count
count-above x [] h = refl
count-above x (y ∷ ys) h =
    let n : ltb_ℤ y x ≡ false = ground (arith, h.0) in rw n (count-above x ys h.1)

All-get_or :
    (x d : ℤ) (xs : List ℤ) (i : ℕ)
    → All (λ y. leb_ℤ x y ≡ true) xs
    → i < length xs
    → leb_ℤ x (get_or xs i d) ≡ true
All-get_or x d [] i h lt = absurd (omega arith)
All-get_or x d (y ∷ ys) zero h lt = h.0
All-get_or x d (y ∷ ys) (suc i) h lt = All-get_or x d ys i h.1 (omega arith)

leb_ℤ_self : (x : ℤ) → leb_ℤ x x ≡ true
leb_ℤ_self x = ground arith

ltb_ℤ_self : (x : ℤ) → ltb_ℤ x x ≡ false
ltb_ℤ_self x = ground arith

pub IsAscending-IsRank :
    (d : ℤ) (xs : List ℤ) (i : ℕ) → IsAscending xs → i < length xs → IsRank xs i (get_or xs i d)
unfolding count
IsAscending-IsRank d [] i h lt = absurd (omega arith)
IsAscending-IsRank d (x ∷ xs) zero h lt = record {
  below = rw (ltb_ℤ_self x) (omega (arith, count-above x xs h.0));
  reached = rw (leb_ℤ_self x) (omega arith);
}
IsAscending-IsRank d (x ∷ xs) (suc i) h lt =
    let r = IsAscending-IsRank d xs i h.1 (omega arith) in
    record {
      below = ground (arith, r.below);
      reached = rw (All-get_or x d xs i h.0 (omega arith)) (omega (arith, r.reached));
    }
