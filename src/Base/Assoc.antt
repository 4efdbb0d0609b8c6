-- ===== src/Base/Assoc.antt =====
-- A map by a list of pairs, in the place of `std::unordered_map`. The key is tested by `eq`, a
-- Boolean equality that decides the paths of keys.
use mathlib.Core.Path.{◌≡◌, refl, sym, ◌∙◌}
use mathlib.Core.Logic.{inl, inr}
use mathlib.Core.Bool.{false}
use mathlib.Core.List.{List, [], ◌∷◌}
use mathlib.Core.Option.{Option, none, some}
use Prim.Native.Nat.{ℕ}
use native.Mathlib.Omega.{arith}
use hft_sdk.Base.Tests.{◌==◌, if◌then◌else◌, Bool-cases}

-- Maps whose keys are numbers.
module _ {ℓ} {V : Type ℓ} where
  -- `m.erase(key)`.
  unfoldable pub erase : ℕ → List (ℕ × V) → List (ℕ × V)
  erase key [] = []
  erase key ((here, w) ∷ rest) = if here == key then erase key rest else (here, w) ∷ erase key rest

  -- `m[key] = new`.
  unfoldable pub insert : ℕ → V → List (ℕ × V) → List (ℕ × V)
  insert key new [] = (key, new) ∷ []
  insert key new ((here, old) ∷ rest) =
      if here == key then (key, new) ∷ rest else (here, old) ∷ insert key new rest

  -- `m.find(key)`.
  unfoldable pub lookup : ℕ → List (ℕ × V) → Option V
  lookup key [] = none
  lookup key ((here, found) ∷ rest) = if here == key then some found else lookup key rest

  pub lookup-insert :
      (key other : ℕ) (new : V) (rest : List (ℕ × V))
      → lookup other (insert key new rest) ≡ (if key == other then some new else lookup other rest)
  unfolding lookup insert
  lookup-insert key other new [] = refl
  lookup-insert key other new ((here, old) ∷ rest) =
      ground (arith, lookup-insert key other new rest)

  pub lookup-erase :
      (key other : ℕ) (rest : List (ℕ × V))
      → lookup other (erase key rest) ≡ (if key == other then none else lookup other rest)
  unfolding lookup erase
  lookup-erase key other [] = ground arith
  lookup-erase key other ((here, old) ∷ rest) = ground (arith, lookup-erase key other rest)

  -- What is found after an erasure was found before, under another key.
  pub lookup-erase-some :
      (key other : ℕ) (rest : List (ℕ × V)) (w : V)
      → lookup other (erase key rest) ≡ some w
      → ((key == other) ≡ false) × (lookup other rest ≡ some w)
  lookup-erase-some key other rest w h = elim (Bool-cases (key == other)) [
    | inl e ↦ absurd (missing (sym (lookup-erase key other rest ∙ rw e refl) ∙ h))
    | inr e ↦ (e, sym (lookup-erase key other rest ∙ rw e refl) ∙ h)
  ]
    where
      missing : Path (Option V) none (some w) → ⊥
      missing e = cc
