-- ===== src/Base/Double.antt =====
-- The arithmetic of `double`, which the language gives and the sources only use.
use mathlib.Core.Bool.{Bool}
use hft_sdk.Base.Int.{ℤ, ◌+ℤ◌, ◌-ℤ◌, ◌*ℤ◌, ◌/ℤ◌, ltb_ℤ}

-- `of_int` is `static_cast<double>` of an integer, `ceil` is `std::ceil`, and `truncate` the cast to an
-- integer type.
pub record DoubleOps (D : Type 0) : Type 0 where
  pub of_int : ℤ → D
  pub add : D → D → D
  pub sub : D → D → D
  pub mul : D → D → D
  pub div : D → D → D
  pub less : D → D → Bool
  pub ceil : D → D
  pub truncate : D → ℤ

-- Whole numbers in the place of doubles, for runs on small inputs.
unfoldable pub integers : DoubleOps ℤ
integers = record {
  of_int = λ a. a;
  add = λ a b. a +ℤ b;
  sub = λ a b. a -ℤ b;
  mul = λ a b. a *ℤ b;
  div = λ a b. a /ℤ b;
  less = λ a b. ltb_ℤ a b;
  ceil = λ a. a;
  truncate = λ a. a;
}
