-- ===== src/Base/Names.antt =====
-- Strings as lists of their characters, and their equality.
use Prim.Native.Nat.{ℕ}
use mathlib.Core.Path.{◌≡◌, refl}
use mathlib.Core.Bool.{Bool, true, false, ◌&&◌}
use mathlib.Core.List.{List, [], ◌∷◌}
use native.Mathlib.Omega.{arith}
use hft_sdk.Base.Tests.{◌==◌}

abbrev pub Name : Type 0
Name = List ℕ

unfoldable pub same_name : Name → Name → Bool
same_name [] [] = true
same_name (c ∷ m) (d ∷ n) = c == d && same_name m n
same_name _ _ = false

pub same_name_refl : (n : Name) → same_name n n ≡ true
unfolding same_name
same_name_refl [] = refl
same_name_refl (c ∷ n) = ground (arith, same_name_refl n)

pub same_name-true : (m n : Name) → same_name m n ≡ true → m ≡ n
unfolding same_name
same_name-true [] [] e = refl
same_name-true [] (d ∷ n) e = cc
same_name-true (c ∷ m) [] e = cc
same_name-true (c ∷ m) (d ∷ n) e =
    let h : c ≡ d = ground (arith, e) in
    let t = same_name-true m n (ground (arith, e)) in λ i. h i ∷ t i
