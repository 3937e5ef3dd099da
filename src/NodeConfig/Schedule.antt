-- ===== src/NodeConfig/Schedule.antt =====
-- internal/nodeconfig/schedule.go: when a node may be used. The texts of times and days are their bytes,
-- and days are ASCII; a time of the week is a weekday from Sunday, 0, and the minutes since midnight.
pub mod Nights
mod Tests
use mlx_mesh.Base.{
  ℕ, zero, suc, ◌+◌, ◌-◌, ◌*◌, ◌%◌, Bool, true, false, Option, none, some, List, [], ◌∷◌, String,
  str_eq, ltb, leb, ◌==◌, ◌&&◌, ◌||◌, if◌then◌else◌,
}
use mlx_mesh.Base.Int.{ℤ, pos, negsuc}
use mlx_mesh.Base.Text.{same_bytes, trim_space, to_lower}

pub record Schedule : Type 0 where
  pub mode : String
  pub daily_start : List ℕ
  pub daily_end : List ℕ
  pub days : List (List ℕ)

abbrev pub schedule_mode_window : String
schedule_mode_window = "window"

-- The first three letters of a weekday, in lower case.
unfoldable pub weekday_name : ℕ → List ℕ
weekday_name wd =
    if wd == 0
    then 115 ∷ 117 ∷ 110 ∷ []
    else if wd == 1
    then 109 ∷ 111 ∷ 110 ∷ []
    else if wd == 2
    then 116 ∷ 117 ∷ 101 ∷ []
    else if wd == 3
    then 119 ∷ 101 ∷ 100 ∷ []
    else if wd == 4
    then 116 ∷ 104 ∷ 117 ∷ []
    else if wd == 5
    then 102 ∷ 114 ∷ 105 ∷ []
    else 115 ∷ 97 ∷ 116 ∷ []

-- `(int(wd)%7 + 7) % 7`: the remainder of a negative number is negative.
unfoldable pub normalized : ℤ → ℕ
normalized (pos n) = (n % 7 + 7) % 7
normalized (negsuc n) = (7 - (n + 1) % 7) % 7

unfoldable pub is_named : List ℕ → List (List ℕ) → Bool
is_named name [] = false
is_named name (d ∷ ds) = same_bytes (to_lower (trim_space d)) name || is_named name ds

unfoldable pub day_allowed : List (List ℕ) → ℤ → Bool
day_allowed [] wd = true
day_allowed (d ∷ ds) wd = is_named (weekday_name (normalized wd)) (d ∷ ds)

-- `strings.SplitN(s, ":", 2)`, where it has two parts.
unfoldable pub split_colon : List ℕ → Option (List ℕ × List ℕ)
split_colon [] = none
split_colon (c ∷ cs) = elim (split_colon cs) [
  | none ↦ if c == 58 then some ([], cs) else none
  | some (h, m) ↦ if c == 58 then some ([], cs) else some (c ∷ h, m)
]

unfoldable pub digits_from : ℕ → List ℕ → Option ℕ
digits_from n [] = some n
digits_from n (c ∷ cs) =
    let rest = digits_from (n * 10 + (c - 48)) cs in if leb 48 c && leb c 57 then rest else none

unfoldable pub digits : List ℕ → Option ℕ
digits [] = none
digits (c ∷ cs) = digits_from 0 (c ∷ cs)

unfoldable pub positive : Option ℕ → Option ℤ
positive none = none
positive (some n) = if ltb 9223372036854775807 n then none else some (pos n)

unfoldable pub negative : Option ℕ → Option ℤ
negative none = none
negative (some zero) = some (pos 0)
negative (some (suc n)) = if ltb 9223372036854775807 n then none else some (negsuc n)

-- `strconv.Atoi`.
unfoldable pub atoi : List ℕ → Option ℤ
atoi [] = none
atoi (c ∷ cs) =
    if c == 43
    then positive (digits cs)
    else if c == 45
    then negative (digits cs)
    else positive (digits (c ∷ cs))

-- A number from 0 to a limit.
unfoldable pub up_to : ℕ → Option ℤ → Option ℕ
up_to limit none = none
up_to limit (some (pos n)) = if ltb limit n then none else some n
up_to limit (some (negsuc n)) = none

unfoldable pub minutes_of : Option ℕ → Option ℕ → Option ℕ
minutes_of none m = none
minutes_of (some h) none = none
minutes_of (some h) (some m) = some (h * 60 + m)

unfoldable pub parse_hhmm : List ℕ → Option ℕ
parse_hhmm s = elim (split_colon s) [
  | none ↦ none
  | some (h, m) ↦ minutes_of (up_to 23 (atoi h)) (up_to 59 (atoi m))
]

-- `t.Weekday()-1`.
unfoldable pub day_before : ℕ → ℤ
day_before zero = negsuc 0
day_before (suc wd) = pos wd

-- Whether the minute `now` of the weekday lies in a window with this start and this end.
unfoldable pub in_window : List (List ℕ) → ℕ → ℕ → ℕ → ℕ → Bool
in_window days start end wd now =
    if leb start end
    then day_allowed days (pos wd) && leb start now && ltb now end
    else if leb start now
    then day_allowed days (pos wd)
    else if ltb now end
    then day_allowed days (day_before wd)
    else false

unfoldable pub window_or_open : List (List ℕ) → Option ℕ → Option ℕ → ℕ → ℕ → Bool
window_or_open days none end wd now = true
window_or_open days (some start) none wd now = true
window_or_open days (some start) (some end) wd now = in_window days start end wd now

unfoldable pub is_active_now : Schedule → ℕ → ℕ → Bool
is_active_now s wd now =
    if str_eq s.mode schedule_mode_window
    then window_or_open s.days (parse_hhmm s.daily_start) (parse_hhmm s.daily_end) wd now
    else true
