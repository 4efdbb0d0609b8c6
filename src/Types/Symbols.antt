-- ===== src/Types/Symbols.antt =====
-- The strings of `Symbol` of `src/common/types.hpp`: its constructor and `to_string`. A string is the
-- list of its bytes, which a zero byte ends, and `SymbolHash` reads the eight bytes as one number.
use hft_sdk.Base.{
  All, Bool-cases, List, [], ap, arith, if◌then◌else◌, inl, inr, length, refl, suc, sym, take, zero,
  ℕ, ◌%◌, ◌*◌, ◌+◌, ◌/◌, ◌<◌, ◌==◌, ◌∙◌, ◌∷◌, ◌≡◌,
}
use hft_sdk.Types.{Symbol}

-- `std::strlen` and `std::find(data.begin(), data.end(), '\0')`: the bytes before the first zero.
unfoldable pub before_zero : List ℕ → List ℕ
before_zero [] = []
before_zero (b ∷ bs) = if b == 0 then [] else b ∷ before_zero bs

abbrev pub max_len : ℕ
max_len = 8

-- The first `n` bytes of `data`, zero before, after `memcpy` has written the bytes there.
unfoldable pub fill : ℕ → List ℕ → List ℕ
fill zero bs = []
fill (suc n) [] = 0 ∷ fill n []
fill (suc n) (b ∷ bs) = b ∷ fill n bs

-- `data` as one number, its first byte the lowest.
unfoldable pub pack : List ℕ → Symbol
pack [] = 0
pack (b ∷ bs) = b + 256 * pack bs

unfoldable pub unpack : ℕ → Symbol → List ℕ
unpack zero v = []
unpack (suc n) v = v % 256 ∷ unpack n (v / 256)

unfoldable pub make_symbol : List ℕ → Symbol
make_symbol s = pack (fill max_len (before_zero s))

unfoldable pub to_string : Symbol → List ℕ
to_string v = before_zero (unpack max_len v)

abbrev pub IsBytes : List ℕ → Type 0
IsBytes bs = All (λ b. b < 256) bs

unpack-pack : (bs : List ℕ) → IsBytes bs → unpack (length bs) (pack bs) ≡ bs
unfolding unpack pack
unpack-pack [] h = refl
unpack-pack (b ∷ bs) h =
    let low : (b + 256 * pack bs) % 256 ≡ b = omega (arith, h.0) in
    let high : (b + 256 * pack bs) / 256 ≡ pack bs = omega (arith, h.0) in
    rw (low, high) (ap (λ l. b ∷ l) (unpack-pack bs h.1))

length-fill : (n : ℕ) (bs : List ℕ) → length (fill n bs) ≡ n
unfolding fill
length-fill zero bs = refl
length-fill (suc n) [] = ap suc (length-fill n [])
length-fill (suc n) (b ∷ bs) = ap suc (length-fill n bs)

fill-IsBytes : (n : ℕ) (bs : List ℕ) → IsBytes bs → IsBytes (fill n bs)
unfolding fill
fill-IsBytes zero bs h = tt
fill-IsBytes (suc n) [] h = (omega arith, fill-IsBytes n [] tt)
fill-IsBytes (suc n) (b ∷ bs) h = (h.0, fill-IsBytes n bs h.1)

before_zero-IsBytes : (bs : List ℕ) → IsBytes bs → IsBytes (before_zero bs)
unfolding before_zero
before_zero-IsBytes [] h = tt
before_zero-IsBytes (b ∷ bs) h = elim (Bool-cases (b == 0)) [
  | inl e ↦ rw e tt
  | inr e ↦ rw e (h.0, before_zero-IsBytes bs h.1)
]

before_zero-fill :
    (n : ℕ) (s : List ℕ) → before_zero (fill n (before_zero s)) ≡ take n (before_zero s)
unfolding before_zero fill
before_zero-fill zero s = refl
before_zero-fill (suc n) [] = refl
before_zero-fill (suc n) (b ∷ s) = elim (Bool-cases (b == 0)) [
  | inl e ↦ rw e refl
  | inr e ↦ rw (e, before_zero, fill) (rw e (ap (λ l. b ∷ l) (before_zero-fill n s)))
]

unpack-make_symbol :
    (s : List ℕ) → IsBytes s → unpack max_len (make_symbol s) ≡ fill max_len (before_zero s)
unfolding make_symbol
unpack-make_symbol s h =
    let bytes = fill-IsBytes max_len (before_zero s) (before_zero-IsBytes s h) in
    ap (λ n. unpack n (pack (fill max_len (before_zero s))))
      (sym (length-fill max_len (before_zero s)))
    ∙ unpack-pack (fill max_len (before_zero s)) bytes

-- The string of the symbol that is made from a string of bytes is the part before the first zero
-- byte, cut to eight bytes.
pub to_string-make_symbol :
    (s : List ℕ) → IsBytes s → to_string (make_symbol s) ≡ take max_len (before_zero s)
unfolding to_string
to_string-make_symbol s h = ap before_zero (unpack-make_symbol s h) ∙ before_zero-fill max_len s
