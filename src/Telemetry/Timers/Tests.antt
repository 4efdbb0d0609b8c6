-- ===== src/Telemetry/Timers/Tests.antt =====
-- A timer of the matching, with integers for `double`.
use hft_sdk.Base.{Name, integers, refl, true, ◌∷◌, ◌≡◌}
use hft_sdk.Telemetry.{starts_with, contains, match_word, new_telemetry, start_timer, end_timer}
use hft_sdk.Telemetry.Timers.{Times, end_timer-Times}

-- A name that contains "match", not at its start.
abbrev matching_name : Name
matching_name = 97 ∷ match_word

named : contains match_word matching_name ≡ true
unfolding contains starts_with
named = refl

end_timer-Times_example : Times integers (new_telemetry integers) matching_name 100 350 (
    end_timer integers
      (start_timer integers (new_telemetry integers) matching_name 100)
      matching_name
      350)
end_timer-Times_example = end_timer-Times integers (new_telemetry integers) matching_name 100 350
