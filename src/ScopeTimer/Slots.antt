-- ===== src/ScopeTimer/Slots.antt =====
-- What `start` and `end` of `ScopeTimer.hpp` do to the slots.
use hft_sdk.Base.{
  All, Bool-cases, List, Name, [], ap, arith, false, if◌then◌else◌, inl, inr, length, ltb, none,
  pos, refl, same_name, same_name_refl, some, true, ℕ, ◌&&◌, ◌+◌, ◌-ℤ◌, ◌<◌, ◌∙◌, ◌∷◌, ◌≡◌, ◌≤◌,
}
use hft_sdk.Types.{Timestamp}
use hft_sdk.ScopeTimer.{TimerSlot, start_scope, end_scope, end_and_log}

-- No timer of the label runs.
abbrev pub IsIdle : Name → List TimerSlot → Type 0
IsIdle label slots = All (λ s. s.used && same_name s.label label ≡ false) slots

-- How many slots are in use.
unfoldable pub used_slots : List TimerSlot → ℕ
used_slots [] = 0
used_slots (s ∷ slots) = if s.used then used_slots slots + 1 else used_slots slots

-- From the start of a timer at `a` to its end at `b`, and at its end by `endAndLog`.
pub record Scoped (label : Name) (a b : Timestamp) (slots : List TimerSlot) : Type 0 where
  pub measured :
      used_slots slots < length slots
      → (end_scope label b (start_scope label a slots)).1 ≡ some (pos b -ℤ pos a)
  pub freed : used_slots (end_scope label b (start_scope label a slots)).0 ≡ used_slots slots
  pub ignored : used_slots slots ≡ length slots → start_scope label a slots ≡ slots
  pub kept :
      used_slots slots < length slots
      → used_slots (end_and_log label b (start_scope label a slots)).0 ≡ used_slots slots + 1

end_scope-IsIdle :
    (label : Name) (b : Timestamp) (slots : List TimerSlot)
    → IsIdle label slots
    → end_scope label b slots ≡ (slots, none)
unfolding end_scope
end_scope-IsIdle label b [] h = refl
end_scope-IsIdle label b (s ∷ slots) h = rw (h.0, end_scope-IsIdle label b slots h.1) refl

used_slots-end_and_log :
    (label : Name) (b : Timestamp) (slots : List TimerSlot)
    → used_slots (end_and_log label b slots).0 ≡ used_slots slots
unfolding end_and_log used_slots
used_slots-end_and_log label b [] = refl
used_slots-end_and_log label b (s ∷ slots) = elim (Bool-cases (same_name s.label label)) [
  | inl e ↦ rw e refl
  | inr e ↦ rw (e, used_slots-end_and_log label b slots) refl
]

used_slots_le : (slots : List TimerSlot) → used_slots slots ≤ length slots
unfolding used_slots
used_slots_le [] = omega arith
used_slots_le (s ∷ slots) = ground (arith, used_slots_le slots)

used_slots-start_scope :
    (label : Name) (a : Timestamp) (slots : List TimerSlot)
    → used_slots slots < length slots
    → used_slots (start_scope label a slots) ≡ used_slots slots + 1
unfolding start_scope used_slots
used_slots-start_scope label a [] = λ h. absurd (omega arith)
used_slots-start_scope label a (s ∷ slots) = elim (Bool-cases s.used) [
  | inl e ↦ rw e (λ h. ap (λ n. n + 1) (used_slots-start_scope label a slots (omega arith)))
  | inr e ↦ rw e (λ h. refl)
]

start_scope_full :
    (label : Name) (a : Timestamp) (slots : List TimerSlot)
    → used_slots slots ≡ length slots
    → start_scope label a slots ≡ slots
unfolding start_scope used_slots
start_scope_full label a [] = λ h. refl
start_scope_full label a (s ∷ slots) = elim (Bool-cases s.used) [
  | inl e ↦
      rw e
        (λ h. ap (λ l. record s { used = true } ∷ l) (start_scope_full label a slots (omega arith)))
  | inr e ↦ rw e (λ h. absurd (omega (arith, used_slots_le slots)))
]

end_scope-start_scope :
    (label : Name) (a b : Timestamp) (slots : List TimerSlot)
    → IsIdle label slots
    → used_slots slots < length slots
    → let (slots', result) = end_scope label b (start_scope label a slots) in
      (result ≡ some (pos b -ℤ pos a)) × (used_slots slots' ≡ used_slots slots)
unfolding end_scope start_scope used_slots
end_scope-start_scope label a b [] idle = λ h. absurd (omega arith)
end_scope-start_scope label a b (s ∷ slots) idle = elim (Bool-cases s.used) [
  | inr e ↦ rw (e, same_name_refl label) (λ h. (refl, refl))
  | inl e ↦
      let other : same_name s.label label ≡ false = ground (arith, idle.0, e) in
      let ih = end_scope-start_scope label a b slots idle.1 in
      rw (e, other) (λ h. let r = ih (omega arith) in (r.0, ap (λ n. n + 1) r.1))
]

-- Where no timer of a label runs, a timer that is started and ended returns the time between if a
-- slot was free, and leaves as many slots in use as before; with no slot free the start changes
-- nothing; and a timer that is ended by endAndLog leaves one more slot in use.
pub start_scope-Scoped :
    (label : Name) (a b : Timestamp) (slots : List TimerSlot)
    → IsIdle label slots
    → Scoped label a b slots
start_scope-Scoped label a b slots idle = record {
  measured = λ h. (end_scope-start_scope label a b slots idle h).0;
  freed = elim (Bool-cases (ltb (used_slots slots) (length slots))) [
    | inl e ↦ (end_scope-start_scope label a b slots idle (ground (arith, e))).1
    | inr e ↦
        let f = start_scope_full label a slots (ground (arith, e, used_slots_le slots)) in
        rw (f, end_scope-IsIdle label b slots idle) refl
  ];
  ignored = start_scope_full label a slots;
  kept = λ h.
      used_slots-end_and_log label b (start_scope label a slots)
      ∙ used_slots-start_scope label a slots h;
}
