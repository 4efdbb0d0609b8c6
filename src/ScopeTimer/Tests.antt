-- ===== src/ScopeTimer/Tests.antt =====
-- A timer on fresh slots.
use hft_sdk.Base.{List, [], false, refl, same_name, true, ◌∷◌}
use hft_sdk.ScopeTimer.{TimerSlot}
use hft_sdk.ScopeTimer.Slots.{IsIdle, Scoped, start_scope-Scoped}

abbrev one_busy : List TimerSlot
one_busy =
    record { label = 98 ∷ []; used = true; in_use = true; begin_time = 5 }
    ∷ record { label = []; used = false; in_use = false; begin_time = 0 }
    ∷ []

one_busy-IsIdle : IsIdle (97 ∷ []) one_busy
unfolding same_name
one_busy-IsIdle = (refl, (refl, tt))

start_scope-Scoped_example : Scoped (97 ∷ []) 10 25 one_busy
start_scope-Scoped_example = start_scope-Scoped (97 ∷ []) 10 25 one_busy one_busy-IsIdle
