-- ===== src/Telemetry/Timers/Words.antt =====
-- The search for a word in a name, as `std::string::find` in `telemetry.cpp`.
use hft_sdk.Base.{
  Bool-cases, Name, [], ap, arith, false, inl, inr, refl, true, ℕ, ◌++◌, ◌∙◌, ◌∷◌, ◌≡◌, ◌⊎◌,
}
use hft_sdk.Telemetry.{contains, starts_with}

-- The word is a part of the text.
pub record Within (word text : Name) : Type 0 where
  pub ahead : Name
  pub behind : Name
  pub parts : text ≡ ahead ++ (word ++ behind)

starts_with-append : (word behind : Name) → starts_with word (word ++ behind) ≡ true
unfolding starts_with
starts_with-append [] behind = refl
starts_with-append (c ∷ word) behind = ground (arith, starts_with-append word behind)

starts_with-true :
    (word text : Name) → starts_with word text ≡ true → (behind : Name) × (text ≡ word ++ behind)
unfolding starts_with
starts_with-true [] text h = (text, refl)
starts_with-true (c ∷ word) [] h = absurd cc
starts_with-true (c ∷ word) (d ∷ text) h =
    let e : d ≡ c = ground (arith, h) in
    let (behind, p) = starts_with-true word text (ground (arith, h)) in (behind, λ i. e i ∷ p i)

contains-append :
    (c : ℕ) (word ahead behind : Name) → contains (c ∷ word) (ahead ++ (c ∷ word ++ behind)) ≡ true
unfolding contains
contains-append c word [] behind = let h = starts_with-append (c ∷ word) behind in rw h refl
contains-append c word (d ∷ ahead) behind =
    let h = contains-append c word ahead behind in ground (arith, h)

contains-Within : (word text : Name) → contains word text ≡ true → Within word text
unfolding contains
contains-Within word [] h = absurd cc
contains-Within word (d ∷ text) h = elim (Bool-cases (starts_with word (d ∷ text))) [
  | inl e ↦
      let (behind, p) = starts_with-true word (d ∷ text) e in
      record { ahead = []; behind = behind; parts = p }
  | inr e ↦
      let w = contains-Within word text (rw e at h) in
      record { ahead = d ∷ w.ahead; behind = w.behind; parts = ap (λ l. d ∷ l) w.parts }
]

pub contains_cases :
    (c : ℕ) (word text : Name)
    → ((contains (c ∷ word) text ≡ true) × Within (c ∷ word) text)
      ⊎ ((contains (c ∷ word) text ≡ false) × (¬ Within (c ∷ word) text))
contains_cases c word text = elim (Bool-cases (contains (c ∷ word) text)) [
  | inl e ↦ inl (e, contains-Within (c ∷ word) text e)
  | inr e ↦ inr (
    e,
    λ w.
        let h = ap (contains (c ∷ word)) w.parts ∙ contains-append c word w.ahead w.behind in
        absurd cc,
  )
]
