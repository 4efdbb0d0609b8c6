-- ===== src/Types/Tests.antt =====
-- Runs of the strings and the hash of a `Symbol`.
use hft_sdk.Base.{List, [], arith, refl, take, ℕ, ◌==◌, ◌∷◌, ◌≡◌}
use hft_sdk.Types.Hashing.{shift_right, symbol_hash, symbol_hash-eq, xor}
use hft_sdk.Types.Symbols.{
  before_zero, fill, make_symbol, max_len, pack, to_string, to_string-make_symbol,
}

-- "AB", and a byte behind its zero.
abbrev two_letters : List ℕ
two_letters = 65 ∷ 66 ∷ 0 ∷ 67 ∷ []

number_of_two : make_symbol two_letters ≡ 16961
unfolding make_symbol pack fill before_zero
number_of_two = refl

to_string-make_symbol_example :
    to_string (make_symbol two_letters) ≡ take max_len (before_zero two_letters)
to_string-make_symbol_example =
    to_string-make_symbol two_letters (omega arith, (omega arith, (omega arith, (omega arith, tt))))

hash_of_one : symbol_hash 1 ≡ 18397679293204093734
unfolding symbol_hash xor shift_right
hash_of_one = refl

symbol_hash-eq_example : (symbol_hash 16961 == symbol_hash 17217) ≡ (16961 == 17217)
symbol_hash-eq_example = symbol_hash-eq 16961 17217 (ground arith) (ground arith)
