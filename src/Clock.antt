-- ===== src/Clock.antt =====
-- The clock of `src/common/clock.hpp` and `src/common/clock.cpp`. The time of the steady clock is an
-- argument of `clock_now`.
pub mod Calls
use hft_sdk.Base.{u64_mod, ℕ, ◌%◌, ◌+◌}
use hft_sdk.Types.{Timestamp}

pub data ClockMode : Type 0 where
  wall_clock : ClockMode
  simulated : ClockMode

pub record Clock : Type 0 where
  pub mode : ClockMode
  pub simulated_time : Timestamp

abbrev pub new_clock : ClockMode → Clock
new_clock mode = record { mode = mode; simulated_time = 0 }

unfoldable pub when_simulated : Clock → Timestamp → Clock
when_simulated c time = elim c.mode [
  | simulated ↦ record c { simulated_time = time }
  | wall_clock ↦ c
]

unfoldable pub clock_now : Timestamp → Clock → Timestamp
clock_now wall_clock_now c = elim c.mode [
  | simulated ↦ c.simulated_time
  | wall_clock ↦ wall_clock_now
]

abbrev pub advance : ℕ → Clock → Clock
advance delta_ns c = when_simulated c ((c.simulated_time + delta_ns) % u64_mod)

abbrev pub set_time : Timestamp → Clock → Clock
set_time ts c = when_simulated c ts

abbrev pub reset_clock : Clock → Clock
reset_clock c = when_simulated c 0
