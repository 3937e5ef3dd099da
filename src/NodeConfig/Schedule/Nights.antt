-- ===== src/NodeConfig/Schedule/Nights.antt =====
-- When a node with a daily window is active: on the nights of the days that are allowed.
use mlx_mesh.Base.Text.{codes, same_bytes, same_bytes-eq, same_bytes_refl, to_lower, trim_space}
use mlx_mesh.Base.{
  sym, ◌∙◌, [], ◌∷◌, String, ◌==◌, get_elem?, Bool-cases, ℕ, zero, suc, ◌+◌, ◌-◌, ◌*◌, ◌≤◌, ◌<◌,
  ◌≡◌, ◌⊎◌, ◌↔◌, refl, true, false, Option, none, some, List, str_eq, leb, if◌then◌else◌, if_same,
  arith, Option-cases, inl, inr,
}
use mlx_mesh.Base.Int.{ℤ, pos, negsuc}
use mlx_mesh.NodeConfig.Schedule.{
  Schedule, schedule_mode_window, weekday_name, normalized, is_named, day_allowed, up_to,
  minutes_of, parse_hhmm, day_before, in_window, window_or_open, is_active_now, atoi, split_colon,
}

-- The weekday so many days ago, yesterday being the earliest that counts.
unfoldable pub ago : ℕ → ℕ → ℤ
ago zero wd = pos wd
ago (suc n) wd = day_before wd

-- How long a window is; one that ends before it starts ends on the next day.
unfoldable pub duration : ℕ → ℕ → ℕ
duration start end = if leb start end then end - start else (1440 + end) - start

-- The three letters for a weekday from Sunday, 0; the day before Sunday is Saturday.
abbrev pub day_name : ℤ → String
day_name (negsuc _) = "sat"
day_name (pos wd) =
    if wd == 0
    then "sun"
    else if wd == 1
    then "mon"
    else if wd == 2
    then "tue"
    else if wd == 3
    then "wed"
    else if wd == 4
    then "thu"
    else if wd == 5
    then "fri"
    else "sat"

-- No days are listed, or this one is, in any case and with any spaces around it.
abbrev pub IsListed : List (List ℕ) → ℤ → Type 0
IsListed days wd =
    (days ≡ [])
    ⊎ ((k : ℕ) × (d : List ℕ) × (get_elem? days k ≡ some d)
        × (to_lower (trim_space d) ≡ codes (day_name wd)))

-- A window that started today or yesterday, on an allowed day, is open.
abbrev pub IsOpen : List (List ℕ) → ℕ → ℕ → ℕ → ℕ → Type 0
IsOpen days start end wd now =
    (n : ℕ) × (n ≤ 1)
    × IsListed days (ago n wd)
    × (start ≤ n * 1440 + now)
    × (n * 1440 + now < start + duration start end)

-- The same by the test of the code.
abbrev IsOpenBy : List (List ℕ) → ℕ → ℕ → ℕ → ℕ → Type 0
IsOpenBy days start end wd now =
    (n : ℕ) × (n ≤ 1)
    × (day_allowed days (ago n wd) ≡ true)
    × (start ≤ n * 1440 + now)
    × (n * 1440 + now < start + duration start end)

is_named-listed :
    (name : List ℕ) (ds : List (List ℕ))
    → is_named name ds ≡ true
    → (k : ℕ) × (d : List ℕ) × (get_elem? ds k ≡ some d) × (to_lower (trim_space d) ≡ name)
unfolding is_named
is_named-listed name [] h = cc
is_named-listed name (d ∷ ds) h = elim (Bool-cases (same_bytes (to_lower (trim_space d)) name)) [
  | inl same ↦ (0, d, refl, same_bytes-eq (to_lower (trim_space d)) name same)
  | inr other ↦
      (let (k, c, there, same) = is_named-listed name ds (rw (is_named, other) at h) in
        (suc k, c, there, same))
]

listed-is_named :
    (name : List ℕ) (ds : List (List ℕ)) (k : ℕ) (d : List ℕ)
    → get_elem? ds k ≡ some d
    → to_lower (trim_space d) ≡ name
    → is_named name ds ≡ true
unfolding is_named
listed-is_named name [] k d h e = cc
listed-is_named name (c ∷ ds) zero d h e =
    let same : same_bytes (to_lower (trim_space c)) name ≡ true =
      rw (data_inj c d h, e) (same_bytes_refl name) in
    rw (is_named, same)
  where
    data_inj : (a b : List ℕ) → ◌≡◌ {A = Option (List ℕ)} (some a) (some b) → a ≡ b
    data_inj a b e = cc
listed-is_named name (c ∷ ds) (suc k) d h e =
    rw (is_named, listed-is_named name ds k d h e) (ground arith)

weekday_name_lem :
    (wd : ℕ) → wd < 7 → weekday_name (normalized (pos wd)) ≡ codes (day_name (pos wd))
unfolding weekday_name normalized
weekday_name_lem zero h = refl
weekday_name_lem (suc zero) h = refl
weekday_name_lem (suc (suc zero)) h = refl
weekday_name_lem (suc (suc (suc zero))) h = refl
weekday_name_lem (suc (suc (suc (suc zero)))) h = refl
weekday_name_lem (suc (suc (suc (suc (suc zero))))) h = refl
weekday_name_lem (suc (suc (suc (suc (suc (suc zero)))))) h = refl
weekday_name_lem (suc (suc (suc (suc (suc (suc (suc n))))))) h = absurd (omega (arith, h))

-- The days that the code asks about: one of the week, or the day before Sunday.
abbrev IsDay : ℤ → Type 0
IsDay (pos wd) = wd < 7
IsDay (negsuc n) = n ≡ 0

name_of_day : (wd : ℤ) → IsDay wd → weekday_name (normalized wd) ≡ codes (day_name wd)
unfolding weekday_name normalized
name_of_day (pos wd) h = weekday_name_lem wd h
name_of_day (negsuc n) h = rw h

day_allowed-IsListed :
    (days : List (List ℕ)) (wd : ℤ) → IsDay wd → (day_allowed days wd ≡ true) ↔ IsListed days wd
unfolding day_allowed
day_allowed-IsListed [] wd h = (λ _. inl refl, λ _. refl)
day_allowed-IsListed (d ∷ ds) wd h = (to, from)
  where
    to : is_named (weekday_name (normalized wd)) (d ∷ ds) ≡ true → IsListed (d ∷ ds) wd
    to t =
        let (k, c, there, same) = is_named-listed (weekday_name (normalized wd)) (d ∷ ds) t in
        inr (k, c, there, same ∙ name_of_day wd h)

    from : IsListed (d ∷ ds) wd → is_named (weekday_name (normalized wd)) (d ∷ ds) ≡ true
    from (inl empty) = cc
    from (inr (k, c, there, same)) =
        listed-is_named (weekday_name (normalized wd)) (d ∷ ds) k c there
          (same ∙ sym (name_of_day wd h))

IsDay-ago : (n wd : ℕ) → n ≤ 1 → wd < 7 → IsDay (ago n wd)
unfolding ago day_before
IsDay-ago zero wd one h = h
IsDay-ago (suc zero) zero one h = refl
IsDay-ago (suc zero) (suc wd) one h = omega (arith, h)
IsDay-ago (suc (suc n)) wd one h = absurd (omega (arith, one))

IsOpenBy-IsOpen :
    (days : List (List ℕ)) (start end wd now : ℕ)
    → wd < 7
    → IsOpenBy days start end wd now
    → IsOpen days start end wd now
IsOpenBy-IsOpen days start end wd now h (n, one, allowed, from, until) =
    (n, one, (day_allowed-IsListed days (ago n wd) (IsDay-ago n wd one h)).0 allowed, from, until)

IsOpen-IsOpenBy :
    (days : List (List ℕ)) (start end wd now : ℕ)
    → wd < 7
    → IsOpen days start end wd now
    → IsOpenBy days start end wd now
IsOpen-IsOpenBy days start end wd now h (n, one, listed, from, until) =
    (n, one, (day_allowed-IsListed days (ago n wd) (IsDay-ago n wd one h)).1 listed, from, until)

up_to-le : (limit : ℕ) (z : Option ℤ) (n : ℕ) → up_to limit z ≡ some n → n ≤ limit
unfolding up_to
up_to-le limit none n h = cc
up_to-le limit (some (pos k)) n h = ground arith
up_to-le limit (some (negsuc k)) n h = cc

minutes_of-lt :
    (h m : Option ℕ) (n : ℕ)
    → ((k : ℕ) → h ≡ some k → k ≤ 23)
    → ((k : ℕ) → m ≡ some k → k ≤ 59)
    → minutes_of h m ≡ some n
    → n < 1440
unfolding minutes_of
minutes_of-lt none m n p q e = cc
minutes_of-lt (some h) none n p q e = cc
minutes_of-lt (some h) (some m) n p q e =
    let hours = p h refl in let minutes = q m refl in ground arith

-- A time that parses is a minute of a day.
parse_hhmm-lt : (s : List ℕ) (n : ℕ) → parse_hhmm s ≡ some n → n < 1440
unfolding parse_hhmm
parse_hhmm-lt s n e = elim (Option-cases (split_colon s)) [
  | inl bad ↦ cc
  | inr ((h, m), two) ↦
      minutes_of-lt (up_to 23 (atoi h)) (up_to 59 (atoi m)) n (up_to-le 23 (atoi h))
        (up_to-le 59 (atoi m)) (rw (parse_hhmm, two) at e)
]

in_window_cases :
    (days : List (List ℕ)) (start end wd now : ℕ)
    → in_window days start end wd now ≡ true
    → ((day_allowed days (pos wd) ≡ true) × (start ≤ now) × ((now < end) ⊎ (end < start)))
      ⊎ ((day_allowed days (day_before wd) ≡ true) × (end < start) × (now < end))
unfolding in_window
in_window_cases days start end wd now h = ground arith

within :
    (start end now : ℕ)
    → start < 1440
    → now < 1440
    → (now < end) ⊎ (end < start)
    → now < start + duration start end
unfolding duration
within start end now hs hn h = ground arith

overnight :
    (start end now : ℕ)
    → end < start
    → start < 1440
    → now < end
    → (start ≤ 1440 + now) × (1440 + now < start + duration start end)
unfolding duration
overnight start end now h hs k = ground arith

opens :
    (days : List (List ℕ)) (start end wd now : ℕ)
    → start < 1440
    → now < 1440
    → in_window days start end wd now ≡ true
    → IsOpenBy days start end wd now
unfolding ago
opens days start end wd now hs hn h = elim (in_window_cases days start end wd now h) [
  | inl (allowed, from, until) ↦
      (let before = within start end now hs hn until in
        (0, omega arith, allowed, omega (arith, from), omega (arith, before)))
  | inr (allowed, wraps, until) ↦
      (let (from, before) = overnight start end now wraps hs until in
        (1, omega arith, allowed, from, before))
]

closes :
    (days : List (List ℕ)) (start end wd now : ℕ)
    → end < 1440
    → now < 1440
    → IsOpenBy days start end wd now
    → in_window days start end wd now ≡ true
unfolding in_window ago duration
closes days start end wd now he hn (zero, _, allowed, from, until) = ground arith
closes days start end wd now he hn (suc zero, _, allowed, from, until) = ground arith
closes days start end wd now he hn (suc (suc n), two, _, _, _) = ground (arith, two)

-- What the two times of a schedule say.
abbrev pub IsInHours : Schedule → ℕ → ℕ → Type 0
IsInHours s wd now =
    (start : ℕ) × (end : ℕ) × (parse_hhmm s.daily_start ≡ some start)
    × (parse_hhmm s.daily_end ≡ some end)
    × IsOpen s.days start end wd now

-- A schedule that is always on, or that cannot be read.
abbrev pub IsUnrestricted : Schedule → Type 0
IsUnrestricted s =
    (str_eq s.mode schedule_mode_window ≡ false)
    ⊎ (parse_hhmm s.daily_start ≡ none)
    ⊎ (parse_hhmm s.daily_end ≡ none)

window_or_open_unread :
    (days : List (List ℕ)) (a b : Option ℕ) (wd now : ℕ)
    → (a ≡ none) ⊎ (b ≡ none)
    → window_or_open days a b wd now ≡ true
unfolding window_or_open
window_or_open_unread days none b wd now h = refl
window_or_open_unread days (some a) none wd now h = refl
window_or_open_unread days (some a) (some b) wd now (inl h) = cc
window_or_open_unread days (some a) (some b) wd now (inr h) = cc

unrestricted_active : (s : Schedule) (wd now : ℕ) → IsUnrestricted s → is_active_now s wd now ≡ true
unfolding is_active_now
unrestricted_active s wd now (inl other) = rw (other, is_active_now)
unrestricted_active s wd now (inr bad) =
    rw
      (
        is_active_now,
        window_or_open_unread s.days (parse_hhmm s.daily_start) (parse_hhmm s.daily_end) wd now bad,
      )
      (if_same (str_eq s.mode schedule_mode_window) true)

windowed :
    (s : Schedule) (wd now start end : ℕ)
    → now < 1440
    → str_eq s.mode schedule_mode_window ≡ true
    → parse_hhmm s.daily_start ≡ some start
    → parse_hhmm s.daily_end ≡ some end
    → is_active_now s wd now ≡ in_window s.days start end wd now
unfolding is_active_now window_or_open
windowed s wd now start end hn mode from until =
    rw (is_active_now, mode, from, until, window_or_open)

-- A node is active at a minute of a weekday exactly when its schedule has another mode than "window" or
-- a time that does not parse, or a window that started today or yesterday is still open, on a day that
-- is listed by its first three letters, in any case and with spaces around them, if any days are
-- listed at all. A window that ends before it starts ends on the next day. So a list of days of which
-- none is spelled so keeps the node from ever being active.
pub is_active_now-IsOpen :
    (s : Schedule) (wd now : ℕ)
    → wd < 7
    → now < 1440
    → (is_active_now s wd now ≡ true) ↔ (IsUnrestricted s ⊎ IsInHours s wd now)
is_active_now-IsOpen s wd now hw hn = (active, meant)
  where
    active : is_active_now s wd now ≡ true → IsUnrestricted s ⊎ IsInHours s wd now
    active h = elim (Bool-cases (str_eq s.mode schedule_mode_window)) [
      | inr other ↦ inl (inl other)
      | inl mode ↦ elim (Option-cases (parse_hhmm s.daily_start)) [
        | inl bad ↦ inl (inr (inl bad))
        | inr (start, from) ↦ elim (Option-cases (parse_hhmm s.daily_end)) [
          | inl bad ↦ inl (inr (inr bad))
          | inr (end, until) ↦ inr (
            start,
            end,
            from,
            until,
            IsOpenBy-IsOpen s.days start end wd now hw (
                opens s.days start end wd now (parse_hhmm-lt s.daily_start start from) hn
                  (rw (windowed s wd now start end hn mode from until) at h)),
          )
        ]
      ]
    ]

    meant : IsUnrestricted s ⊎ IsInHours s wd now → is_active_now s wd now ≡ true
    meant (inl free) = unrestricted_active s wd now free
    meant (inr (start, end, from, until, open_window)) =
        elim (Bool-cases (str_eq s.mode schedule_mode_window)) [
          | inr other ↦ unrestricted_active s wd now (inl other)
          | inl mode ↦ rw (windowed s wd now start end hn mode from until) (
              closes s.days start end wd now (parse_hhmm-lt s.daily_end end until) hn
                (IsOpen-IsOpenBy s.days start end wd now hw open_window))
        ]
