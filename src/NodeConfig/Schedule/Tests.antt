-- ===== src/NodeConfig/Schedule/Tests.antt =====
-- Schedules at some times of the week: internal/nodeconfig/schedule.go.
use mlx_mesh.Base.{◌≡◌, ◌⊎◌, ◌↔◌, refl, true, false, none, some, [], ◌∷◌, arith}
use mlx_mesh.Base.Text.{same_bytes, is_space, trim_left, trim_right, trim_space, to_lower}
use mlx_mesh.NodeConfig.Schedule.{
  Schedule, weekday_name, normalized, is_named, day_allowed, split_colon, digits_from, digits,
  positive, negative, atoi, up_to, minutes_of, parse_hhmm, day_before, in_window, window_or_open,
  is_active_now,
}
use mlx_mesh.NodeConfig.Schedule.Nights.{IsUnrestricted, IsInHours, is_active_now-IsOpen}

-- "22:00", "07:00" and " Fri".
abbrev night : Schedule
night = record {
  mode = "window";
  daily_start = 50 ∷ 50 ∷ 58 ∷ 48 ∷ 48 ∷ [];
  daily_end = 48 ∷ 55 ∷ 58 ∷ 48 ∷ 48 ∷ [];
  days = (32 ∷ 70 ∷ 114 ∷ 105 ∷ []) ∷ [];
}

-- Friday at 23:00, Saturday at 6:00, Saturday at 23:00.
night_friday : is_active_now night 5 1380 ≡ true
unfolding is_active_now same_bytes is_space trim_left trim_right trim_space to_lower weekday_name
    normalized is_named day_allowed day_before in_window window_or_open split_colon digits_from
    digits positive negative atoi up_to minutes_of parse_hhmm
night_friday = refl

night_morning : is_active_now night 6 360 ≡ true
unfolding is_active_now same_bytes is_space trim_left trim_right trim_space to_lower weekday_name
    normalized is_named day_allowed day_before in_window window_or_open split_colon digits_from
    digits positive negative atoi up_to minutes_of parse_hhmm
night_morning = refl

night_saturday : is_active_now night 6 1380 ≡ false
unfolding is_active_now same_bytes is_space trim_left trim_right trim_space to_lower weekday_name
    normalized is_named day_allowed day_before in_window window_or_open split_colon digits_from
    digits positive negative atoi up_to minutes_of parse_hhmm
night_saturday = refl

-- "+9:5" is five past nine, "24:00" is no time.
loose_time : parse_hhmm (43 ∷ 57 ∷ 58 ∷ 53 ∷ []) ≡ some 545
unfolding split_colon digits_from digits positive negative atoi up_to minutes_of parse_hhmm
loose_time = refl

late_time : parse_hhmm (50 ∷ 52 ∷ 58 ∷ 48 ∷ 48 ∷ []) ≡ none
unfolding split_colon digits_from digits positive negative atoi up_to minutes_of parse_hhmm
late_time = refl

is_active_now-IsOpen_example :
    (is_active_now night 6 360 ≡ true) ↔ (IsUnrestricted night ⊎ IsInHours night 6 360)
is_active_now-IsOpen_example = is_active_now-IsOpen night 6 360 (omega arith) (omega arith)
