-- ===== src/Clock/Calls/Tests.antt =====
-- A clock that is set and then advanced.
use hft_sdk.Base.{[], ◌∷◌}
use hft_sdk.Clock.Calls.{advances, sets, Reads, clock_now-Reads}

clock_now-Reads_example : Reads 500 (advances 7 ∷ sets 100 ∷ [])
clock_now-Reads_example = clock_now-Reads 500 (advances 7 ∷ sets 100 ∷ [])
