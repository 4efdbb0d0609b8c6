-- ===== src/ScopeTimer.antt =====
-- The named timers of one thread in `src/ScopeTimer.hpp`, where they are not disabled. The time of the
-- steady clock is an argument, and the printing is left out.
pub mod Slots
pub mod Tests
use hft_sdk.Base.{
  Bool, List, Name, Option, [], false, if◌then◌else◌, none, not, pos, replicate, same_name, some,
  true, ℕ, ℤ, ◌&&◌, ◌-ℤ◌, ◌∷◌,
}
use hft_sdk.Types.{Timestamp}

-- `Slot`, with the fields of its `ScopeTimer`.
pub record TimerSlot : Type 0 where
  pub label : Name
  pub used : Bool
  pub in_use : Bool
  pub begin_time : Timestamp

abbrev pub max_slots : ℕ
max_slots = 32

abbrev pub new_slots : List TimerSlot
new_slots =
    replicate max_slots (record { label = []; used = false; in_use = false; begin_time = 0 })

-- `ScopeTimerManagement::start`.
unfoldable pub start_scope : Name → Timestamp → List TimerSlot → List TimerSlot
start_scope label now [] = []
start_scope label now (item ∷ slots) =
    if not item.used
    then record { label = label; used = true; in_use = true; begin_time = now } ∷ slots
    else item ∷ start_scope label now slots

-- `ScopeTimer::end`.
abbrev pub duration : Timestamp → TimerSlot → ℤ
duration now item = pos now -ℤ pos item.begin_time

-- `ScopeTimerManagement::end`; `none` is the end of the function without a return.
unfoldable pub end_scope : Name → Timestamp → List TimerSlot → List TimerSlot × Option ℤ
end_scope label now [] = ([], none)
end_scope label now (item ∷ slots) =
    let (rest, result) = end_scope label now slots in
    if item.used && same_name item.label label
    then (record item { used = false; in_use = false } ∷ slots, some (duration now item))
    else (item ∷ rest, result)

-- `ScopeTimerManagement::endAndLog`, with the duration that it prints.
unfoldable pub end_and_log : Name → Timestamp → List TimerSlot → List TimerSlot × Option ℤ
end_and_log label now [] = ([], none)
end_and_log label now (item ∷ slots) =
    let (rest, result) = end_and_log label now slots in
    if same_name item.label label
    then (record item { in_use = false } ∷ slots, some (duration now item))
    else (item ∷ rest, result)
