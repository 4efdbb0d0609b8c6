-- ===== src/Ring/Slots.antt =====
-- The arithmetic of the sequences of `HPRingBuffer.hpp`: their distance, and the slots that they
-- name.
use native.Mathlib.Nat.{mod-add-div, mod-mod_of_dvd, dvd-mul_right, mul-le-mul_left, mul-add}
use hft_sdk.Base.{
  Bool-cases, ap, arith, inl, inr, ltb, subst, u64_mod, ℕ, ◌%◌, ◌*◌, ◌+◌, ◌-◌, ◌/◌, ◌<◌, ◌≡◌, ◌≤◌,
}
use hft_sdk.Ring.{distance}

-- While at most `u64_mod - 1` items are pending, their number is the distance of the sequences.
pub distance_eq : (w n : ℕ) → n ≤ w → w < n + u64_mod → distance (w % u64_mod) (n % u64_mod) ≡ w - n
distance_eq w n h k = omega arith

pub same_sequence : (w n : ℕ) → n ≤ w → w < n + u64_mod → n % u64_mod ≡ w % u64_mod → n ≡ w
same_sequence w n h k e = omega arith

pub next_sequence : (w : ℕ) → (w % u64_mod + 1) % u64_mod ≡ (w + 1) % u64_mod
next_sequence w = omega arith

-- `Size` is a power of two above one that a sequence can count, which is a divisor of `2 ^ 64`.
pub record IsSize (size : ℕ) : Type 0 where
  pub at_least : 1 < size
  pub at_most : size ≤ u64_mod
  pub copies : ℕ
  pub divides : size * copies ≡ u64_mod

pub slot_of_sequence : (size w : ℕ) → IsSize size → w % u64_mod % size ≡ w % size
slot_of_sequence size w z =
    subst (λ x. w % x % size ≡ w % size) z.divides
      (mod-mod_of_dvd size w (dvd-mul_right size z.copies))

row_gap : (size a b : ℕ) → a < b → size * a + size ≤ size * b
row_gap size a b h =
    let m : size * (a + 1) ≤ size * b = mul-le-mul_left size (omega arith) in
    omega (arith, m, mul-add size a 1)

-- Two sequence numbers less than `size` apart have different slots, or are one.
pub same_slot : (size k w : ℕ) → k ≤ w → w < k + size → k % size ≡ w % size → k ≡ w
same_slot size k w h l e =
    let x = mod-add-div k size in
    let y = mod-add-div w size in
    elim (Bool-cases (ltb (k / size) (w / size))) [
      | inl f ↦
          let g = row_gap size (k / size) (w / size) (ground arith) in
          absurd (omega (arith, x, y, g))
      | inr f ↦ elim (Bool-cases (ltb (w / size) (k / size))) [
        | inl i ↦
            let g = row_gap size (w / size) (k / size) (ground arith) in
            absurd (omega (arith, x, y, g))
        | inr i ↦
            let z : k / size ≡ w / size = ground arith in
            let z' = ap (λ q. size * q) z in omega (arith, x, y, z')
      ]
    ]
