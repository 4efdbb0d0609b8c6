-- ===== src/Types/Hashing.antt =====
-- `SymbolHash` of `src/common/types.hpp`, on numbers of 64 bits.
use hft_sdk.Base.{
  ==_iff, Bool-cases, ap, arith, inl, inr, refl, subst, suc, sym, u64_mod, zero, ℕ, ◌%◌, ◌*◌, ◌+◌,
  ◌/◌, ◌<◌, ◌==◌, ◌∙◌, ◌≡◌,
}
use hft_sdk.Types.{Symbol}

-- `a ^ b` on the lowest `n` bits.
unfoldable pub xor : ℕ → ℕ → ℕ → ℕ
xor zero a b = 0
xor (suc n) a b = (a + b) % 2 + 2 * xor n (a / 2) (b / 2)

-- `a >> k`.
unfoldable pub shift_right : ℕ → ℕ → ℕ
shift_right zero a = a
shift_right (suc k) a = shift_right k (a / 2)

abbrev pub hash_factor : ℕ
hash_factor = 18397679294719823053

-- `v ^= v >> 33`.
abbrev pub mix : ℕ → ℕ
mix v = xor 64 v (shift_right 33 v)

unfoldable pub symbol_hash : Symbol → ℕ
symbol_hash v = mix ((mix v * hash_factor) % u64_mod)

-- The inverse of the factor modulo 2 ^ 64.
abbrev inverse_factor : ℕ
inverse_factor = 5725274745694666757

unscale : (v : ℕ) → v < u64_mod → ((v * hash_factor) % u64_mod * inverse_factor) % u64_mod ≡ v
unscale v h = omega arith

xor_half : (n a b : ℕ) → xor (suc n) a b / 2 ≡ xor n (a / 2) (b / 2)
unfolding xor
xor_half n a b = omega arith

xor-shift_right :
    (k n a b : ℕ) → shift_right k (xor (k + n) a b) ≡ xor n (shift_right k a) (shift_right k b)
unfolding shift_right
xor-shift_right zero n a b = ap (λ m. xor m a b) (omega arith)
xor-shift_right (suc k) n a b =
    ap (λ m. shift_right k (xor m a b / 2)) (omega arith)
    ∙ ap (shift_right k) (xor_half (k + n) a b)
    ∙ xor-shift_right k n (a / 2) (b / 2)

-- A second `xor` takes the first one back.
xor-xor : (n a b : ℕ) → xor n (xor n a b) b ≡ xor n a 0
unfolding xor
xor-xor zero a b = refl
xor-xor (suc n) a b =
    let half : ((a + b) % 2 + 2 * xor n (a / 2) (b / 2)) / 2 ≡ xor n (a / 2) (b / 2) =
      omega arith in
    rw half (omega (arith, xor-xor n (a / 2) (b / 2)))

abbrev power_of_two : ℕ → ℕ
power_of_two zero = 1
power_of_two (suc n) = 2 * power_of_two n

xor_none : (n a : ℕ) → a < power_of_two n → xor n a 0 ≡ a
unfolding xor
xor_none zero a h = omega (arith, h)
xor_none (suc n) a h =
    let rest = xor_none n (a / 2) (omega (arith, h)) in
    let nothing : 0 / 2 ≡ 0 = refl in omega (arith, rest)

shift_right_small : (k a : ℕ) → a < power_of_two k → shift_right k a ≡ 0
unfolding shift_right
shift_right_small zero a h = omega (arith, h)
shift_right_small (suc k) a h = shift_right_small k (a / 2) (omega (arith, h))

shift_right_lt : (k n a : ℕ) → a < power_of_two (k + n) → shift_right k a < power_of_two n
unfolding shift_right
shift_right_lt zero n a h = subst (λ m. a < power_of_two m) (omega arith) h
shift_right_lt (suc k) n a h =
    let e : suc k + n ≡ suc (k + n) = omega arith in
    let bound = subst (λ m. a < power_of_two m) e h in
    shift_right_lt k n (a / 2) (lower (k + n) bound)
  where
    lower : (m : ℕ) → a < power_of_two (suc m) → a / 2 < power_of_two m
    lower m g = omega (arith, g)

-- The high bits of a mixed number are those of the number, so that mixing it again gives it back.
mix-mix : (v : ℕ) → v < u64_mod → mix (mix v) ≡ v
mix-mix v h =
    let s = shift_right 33 v in
    let few : s < power_of_two 31 = shift_right_lt 33 31 v h in
    let high : shift_right 33 (mix v) ≡ s =
      xor-shift_right 33 31 v s
      ∙ ap (xor 31 s) (shift_right_small 33 s (omega (arith, few)))
      ∙ xor_none 31 s few in
    ap (xor 64 (mix v)) high ∙ xor-xor 64 v s ∙ xor_none 64 v h

xor_lt : (n a b : ℕ) → xor n a b < power_of_two n
unfolding xor
xor_lt zero a b = omega arith
xor_lt (suc n) a b = omega (arith, xor_lt n (a / 2) (b / 2))

-- The number that a hash comes from.
abbrev unhash : ℕ → Symbol
unhash h = mix ((mix h * inverse_factor) % u64_mod)

unhash-symbol_hash : (v : Symbol) → v < u64_mod → unhash (symbol_hash v) ≡ v
unfolding symbol_hash
unhash-symbol_hash v h =
    ap (λ k. mix ((k * inverse_factor) % u64_mod))
      (mix-mix ((mix v * hash_factor) % u64_mod) (omega arith))
    ∙ ap mix (unscale (mix v) (xor_lt 64 v (shift_right 33 v)))
    ∙ mix-mix v h

-- The hash of symbols has no collisions: of two symbols of eight bytes, the hashes are equal
-- exactly when the symbols are.
pub symbol_hash-eq :
    (v w : Symbol) → v < u64_mod → w < u64_mod → (symbol_hash v == symbol_hash w) ≡ (v == w)
symbol_hash-eq v w hv hw = elim (Bool-cases (symbol_hash v == symbol_hash w)) [
  | inl e ↦
      let h : symbol_hash v ≡ symbol_hash w = (==_iff (symbol_hash v) (symbol_hash w)).0 e in
      let same : v ≡ w = sym (unhash-symbol_hash v hv) ∙ ap unhash h ∙ unhash-symbol_hash w hw in
      e ∙ sym ((==_iff v w).1 same)
  | inr e ↦ elim (Bool-cases (v == w)) [
    | inr f ↦ e ∙ sym f
    | inl f ↦
        let h : symbol_hash v ≡ symbol_hash w = ap symbol_hash ((==_iff v w).0 f) in
        absurd (ground (arith, e, (==_iff (symbol_hash v) (symbol_hash w)).1 h))
  ]
]
