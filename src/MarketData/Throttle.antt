-- ===== src/MarketData/Throttle.antt =====
-- `should_throttle` of `market_data_engine.cpp`.
use hft_sdk.Base.{
  ==_iff, Bool, Bool-cases, List, Option-cases, arith, false, inl, inr, insert, lookup,
  lookup-insert, ltb, refl, some, some-injective, sym, true, ℕ, ◌<◌, ◌==◌, ◌∙◌, ◌≡◌, ◌≢◌, ◌≤◌,
}
use hft_sdk.Types.{Symbol, Timestamp}
use hft_sdk.MarketData.{elapsed, should_throttle}

-- When an update is held back, and what the engine notes of the others.
pub record Throttles (throttle : ℕ) (times : List (Symbol × Timestamp)) (symbol : Symbol)
    (now : Timestamp) (out : List (Symbol × Timestamp) × Bool) : Type 0 where
  pub held :
      out.1 ≡ true
      → (last : Timestamp) × (lookup symbol times ≡ some last)
        × (elapsed now last < throttle)
        × (out.0 ≡ times)
  pub passed :
      out.1 ≡ false
      → 0 < throttle
      → (lookup symbol out.0 ≡ some now)
        × ((last : Timestamp) → lookup symbol times ≡ some last → throttle ≤ elapsed now last)
  pub others : (s : Symbol) → s ≢ symbol → lookup s out.0 ≡ lookup s times
  pub unlimited : throttle ≡ 0 → out ≡ (times, false)

lookup-insert_self :
    (s : Symbol) (now : Timestamp) (times : List (Symbol × Timestamp))
    → lookup s (insert s now times) ≡ some now
lookup-insert_self s now times = lookup-insert s s now times ∙ ground (arith, (==_iff s s).1 refl)

lookup-insert_other :
    (s t : Symbol) (now : Timestamp) (times : List (Symbol × Timestamp))
    → t ≢ s
    → lookup t (insert s now times) ≡ lookup t times
lookup-insert_other s t now times h = lookup-insert s t now times ∙ ground arith

-- An update is held back only if its symbol was published less than the interval ago, on 64 bits,
-- and then nothing is noted; an update that passes under an interval above zero was last published
-- at least the interval ago or never, and its time is noted; the times of other symbols stay; and
-- an interval of zero holds nothing back and notes nothing.
pub should_throttle-Throttles :
    (throttle : ℕ) (times : List (Symbol × Timestamp)) (symbol : Symbol) (now : Timestamp)
    → Throttles throttle times symbol now (should_throttle throttle times symbol now)
unfolding should_throttle
should_throttle-Throttles throttle times symbol now = elim (Bool-cases (throttle == 0)) [
  | inl e ↦ rw e (record {
    held = λ f. cc;
    passed = λ f h. absurd (ground arith);
    others = λ s h. refl;
    unlimited = λ f. refl;
  })
  | inr e ↦ rw e (elim (Option-cases (lookup symbol times)) [
    | inl f ↦
        rw (f, should_throttle)
          (record {
            held = λ g. cc;
            passed = λ g h.
                (lookup-insert_self symbol now times, λ last i. absurd (ground (arith, f, i)));
            others = λ s h. lookup-insert_other symbol s now times h;
            unlimited = λ h. absurd (ground arith);
          })
    | inr (last, f) ↦
        rw (f, should_throttle)
          (elim (Bool-cases (ltb (elapsed now last) throttle)) [
            | inl g ↦ rw g (record {
              held = λ h. (last, f, ground arith, refl);
              passed = λ h. cc;
              others = λ s h. refl;
              unlimited = λ h. absurd (ground arith);
            })
            | inr g ↦ rw g (record {
              held = λ h. cc;
              passed = λ h i. (
                lookup-insert_self symbol now times,
                λ l j. let k = some-injective _ _ (sym f ∙ j) in ground arith,
              );
              others = λ s h. lookup-insert_other symbol s now times h;
              unlimited = λ h. absurd (ground arith);
            })
          ])
  ])
]
