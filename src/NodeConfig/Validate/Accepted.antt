-- ===== src/NodeConfig/Validate/Accepted.antt =====
-- What a configuration without errors is.
use mlx_mesh.Base.{
  ℕ, ◌<◌, ◌≡◌, ◌⊎◌, ◌↔◌, refl, inl, inr, Bool, true, false, Option, none, some, List, [], ◌∷◌, ◌++◌,
  ◌||◌, not, str_eq, eq_iff, arith, All,
}
use mlx_mesh.Base.Int.{pos, ltb_ℤ}
use mlx_mesh.Base.Text.{codes, same_bytes-eq, to_lower, trim_space}
use mlx_mesh.NodeConfig.Schedule.{Schedule, schedule_mode_window, parse_hhmm, is_active_now}
use mlx_mesh.NodeConfig.Schedule.Nights.{IsInHours, IsUnrestricted, is_active_now-IsOpen}
use mlx_mesh.NodeConfig.Validate.{
  Config, bad_memory_cap, bad_sensitivity_cap, ConfigError, ParseUrl, error_if, is_weekday,
  valid_weekdays, check_endpoint, check_mode, check_days, is_read, validate_schedule, check_drafts,
  is_sensitivity_cap, validate,
}

append-eq_nil : (xs ys : List ConfigError) → xs ++ ys ≡ [] → (xs ≡ []) × (ys ≡ [])
append-eq_nil [] ys h = (refl, h)
append-eq_nil (x ∷ xs) ys h = cc

error_if-nil : (b : Bool) (e : ConfigError) → error_if b e ≡ [] → b ≡ false
error_if-nil true e h = cc
error_if-nil false e h = refl

is_read-some : (o : Option ℕ) → not (is_read o) ≡ false → (n : ℕ) × (o ≡ some n)
unfolding is_read
is_read-some none h = cc
is_read-some (some n) h = (n, refl)

check_days-All : (ds : List (List ℕ)) → check_days ds ≡ [] → All (λ d. is_weekday d ≡ true) ds
unfolding check_days
check_days-All [] h = tt
check_days-All (d ∷ ds) h =
    let (here, rest) = append-eq_nil (error_if (not (is_weekday d)) _) (check_days ds) h in
    let known = error_if-nil (not (is_weekday d)) _ here in
    (ground (arith, known), check_days-All ds rest)

-- The times of a window can be read.
check_mode-read :
    (s : Schedule)
    → check_mode s ≡ []
    → str_eq s.mode schedule_mode_window ≡ true
    → (start : ℕ) × (end : ℕ) × (parse_hhmm s.daily_start ≡ some start)
      × (parse_hhmm s.daily_end ≡ some end)
unfolding check_mode
check_mode-read s h window =
    let named : s.mode ≡ "window" = (eq_iff s.mode "window").0 window in
    let other : (str_eq s.mode "" || str_eq s.mode "always") ≡ false = rw named in
    let (first, second) =
      append-eq_nil (error_if (not (is_read (parse_hhmm s.daily_start))) _) _
        (rw (check_mode, other, window) at h) in
    let (start, from) = is_read-some (parse_hhmm s.daily_start) (error_if-nil _ _ first) in
    let (end, until) = is_read-some (parse_hhmm s.daily_end) (error_if-nil _ _ second) in
    (start, end, from, until)

sixth_nil :
    (a b c d e f g : List ConfigError) → a ++ (b ++ (c ++ (d ++ (e ++ (f ++ g))))) ≡ [] → f ≡ []
sixth_nil [] [] [] [] [] f g h = (append-eq_nil f g h).0
sixth_nil [] [] [] [] (x ∷ e) f g h = cc
sixth_nil [] [] [] (x ∷ d) e f g h = cc
sixth_nil [] [] (x ∷ c) d e f g h = cc
sixth_nil [] (x ∷ b) c d e f g h = cc
sixth_nil (x ∷ a) b c d e f g h = cc

validate-schedule :
    (parse : ParseUrl) (cfg : Config)
    → validate parse cfg ≡ []
    → check_mode cfg.schedule ++ check_days cfg.schedule.days ≡ []
unfolding validate validate_schedule
validate-schedule parse cfg clean =
    sixth_nil
      (error_if (not (ltb_ℤ (pos 0) cfg.memory_cap_pct) || ltb_ℤ (pos 1000000) cfg.memory_cap_pct)
        bad_memory_cap)
      (error_if (not (is_sensitivity_cap cfg.sensitivity_cap)) bad_sensitivity_cap)
      (check_endpoint parse "exo_url" cfg.exo_url)
      (check_endpoint parse "pod_endpoint" cfg.pod_endpoint)
      (check_endpoint parse "reachability_endpoint" cfg.reachability_endpoint)
      (check_mode cfg.schedule ++ check_days cfg.schedule.days) (check_drafts cfg.draft_models)
      clean

-- The text has the three letters of a weekday, in any case and with any spaces around them.
abbrev pub IsWeekday : List ℕ → Type 0
IsWeekday d =
    let letters = to_lower (trim_space d) in
    (letters ≡ codes "mon")
    ⊎ ((letters ≡ codes "tue")
        ⊎ ((letters ≡ codes "wed")
            ⊎ ((letters ≡ codes "thu")
                ⊎ ((letters ≡ codes "fri") ⊎ ((letters ≡ codes "sat") ⊎ (letters ≡ codes "sun"))))))

is_weekday-IsWeekday : (d : List ℕ) → is_weekday d ≡ true → IsWeekday d
unfolding is_weekday valid_weekdays
is_weekday-IsWeekday d h =
    let letters = to_lower (trim_space d) in
    ground (
      arith,
      same_bytes-eq letters (codes "mon"),
      same_bytes-eq letters (codes "tue"),
      same_bytes-eq letters (codes "wed"),
      same_bytes-eq letters (codes "thu"),
      same_bytes-eq letters (codes "fri"),
      same_bytes-eq letters (codes "sat"),
      same_bytes-eq letters (codes "sun"),
    )

All-IsWeekday : (ds : List (List ℕ)) → All (λ d. is_weekday d ≡ true) ds → All IsWeekday ds
All-IsWeekday [] h = tt
All-IsWeekday (d ∷ ds) (h, hs) = (is_weekday-IsWeekday d h, All-IsWeekday ds hs)

-- The modes that are accepted.
check_mode-known :
    (s : Schedule) → check_mode s ≡ [] → ((s.mode ≡ "") ⊎ (s.mode ≡ "always")) ⊎ (s.mode ≡ "window")
unfolding check_mode
check_mode-known s h =
    ground (arith, eq_iff s.mode "", eq_iff s.mode "always", eq_iff s.mode "window")

-- A configuration without errors never opens or closes a node by a slip of the pen: its mode is empty or
-- "always", or it is "window", the node is active exactly in the hours of the window, and its times can
-- be read; and each of its days is the name of a weekday.
pub validate-IsInHours :
    (parse : ParseUrl) (cfg : Config) (wd now : ℕ)
    → validate parse cfg ≡ []
    → wd < 7
    → now < 1440
    → (((cfg.schedule.mode ≡ "") ⊎ (cfg.schedule.mode ≡ "always"))
        ⊎ ((cfg.schedule.mode ≡ "window")
            × ((is_active_now cfg.schedule wd now ≡ true) ↔ IsInHours cfg.schedule wd now)))
      × All IsWeekday cfg.schedule.days
validate-IsInHours parse cfg wd now clean week room =
    let times = validate-schedule parse cfg clean in
    let (mode, days) =
      append-eq_nil (check_mode cfg.schedule) (check_days cfg.schedule.days) times in
    (
      elim (check_mode-known cfg.schedule mode) [
        | inl always ↦ inl always
        | inr window ↦
            (let on : str_eq cfg.schedule.mode schedule_mode_window ≡ true =
                (eq_iff cfg.schedule.mode schedule_mode_window).1 window in
              let (start, end, from, until) = check_mode-read cfg.schedule mode on in
              let iff = is_active_now-IsOpen cfg.schedule wd now week room in
              inr (window, (λ h. restricted start end from until on (iff.0 h), λ h. iff.1 (inr h))))
      ],
      All-IsWeekday cfg.schedule.days (check_days-All cfg.schedule.days days),
    )
  where
    restricted :
        (start end : ℕ)
        → parse_hhmm cfg.schedule.daily_start ≡ some start
        → parse_hhmm cfg.schedule.daily_end ≡ some end
        → str_eq cfg.schedule.mode schedule_mode_window ≡ true
        → IsUnrestricted cfg.schedule ⊎ IsInHours cfg.schedule wd now
        → IsInHours cfg.schedule wd now
    restricted start end from until on (inl (inl other)) = cc
    restricted start end from until on (inl (inr (inl bad))) = cc
    restricted start end from until on (inl (inr (inr bad))) = cc
    restricted start end from until on (inr hours) = hours
