-- ===== src/Clock/Calls.antt =====
-- Sequences of calls of `clock.cpp`.
pub mod Tests
use hft_sdk.Base.{List, [], arith, refl, u64_mod, ℕ, ◌%◌, ◌+◌, ◌∷◌, ◌≡◌}
use hft_sdk.Types.{Timestamp}
use hft_sdk.Clock.{
  Clock, ClockMode, wall_clock, simulated, new_clock, when_simulated, clock_now, advance, set_time,
  reset_clock,
}

pub data ClockCall : Type 0 where
  advances : ℕ → ClockCall
  sets : Timestamp → ClockCall
  resets : ClockCall

unfoldable pub clock_call : ClockCall → Clock → Clock
clock_call (advances delta_ns) c = advance delta_ns c
clock_call (sets ts) c = set_time ts c
clock_call resets c = reset_clock c

-- The calls of the list, the last one first.
unfoldable pub clock_after : ClockMode → List ClockCall → Clock
clock_after mode [] = new_clock mode
clock_after mode (c ∷ cs) = clock_call c (clock_after mode cs)

-- The sum of what was advanced since the time was set, without wrap-around.
unfoldable pub time_after : List ClockCall → ℕ
time_after [] = 0
time_after (advances delta_ns ∷ cs) = time_after cs + delta_ns
time_after (sets ts ∷ cs) = ts
time_after (resets ∷ cs) = 0

-- What the clock reads, where `wall` is the time of the steady clock.
pub record Reads (wall : Timestamp) (cs : List ClockCall) : Type 0 where
  pub simulated_is : clock_now wall (clock_after simulated cs) % u64_mod ≡ time_after cs % u64_mod
  pub wall_is : clock_now wall (clock_after wall_clock cs) ≡ wall

clock_after-simulated :
    (cs : List ClockCall)
    → ((clock_after simulated cs).mode ≡ simulated)
      × ((clock_after simulated cs).simulated_time % u64_mod ≡ time_after cs % u64_mod)
unfolding clock_after clock_call when_simulated time_after
clock_after-simulated [] = (refl, refl)
clock_after-simulated (advances d ∷ cs) =
    let (m, t) = clock_after-simulated cs in rw m (refl, omega (arith, t))
clock_after-simulated (sets ts ∷ cs) = let (m, t) = clock_after-simulated cs in rw m (refl, refl)
clock_after-simulated (resets ∷ cs) = let (m, t) = clock_after-simulated cs in rw m (refl, refl)

clock_after-wall_clock : (cs : List ClockCall) → clock_after wall_clock cs ≡ new_clock wall_clock
unfolding clock_after clock_call when_simulated
clock_after-wall_clock [] = refl
clock_after-wall_clock (advances d ∷ cs) = rw (clock_after-wall_clock cs) refl
clock_after-wall_clock (sets ts ∷ cs) = rw (clock_after-wall_clock cs) refl
clock_after-wall_clock (resets ∷ cs) = rw (clock_after-wall_clock cs) refl

-- After every sequence of calls a simulated clock reads, modulo 2^64, the sum of the advances
-- since the time was last set or reset, on top of the time set, and a wall clock reads the time of
-- the steady clock.
pub clock_now-Reads : (wall : Timestamp) (cs : List ClockCall) → Reads wall cs
unfolding clock_now
clock_now-Reads wall cs =
    let (m, t) = clock_after-simulated cs in
    record { simulated_is = rw m t; wall_is = rw (clock_after-wall_clock cs) refl }
