-- ===== src/NodeConfig/Validate.antt =====
-- internal/nodeconfig/validate.go. The memory cap is in millionths; `url.Parse` is an argument. The
-- errors are values, in the order in which they are joined.
pub mod Accepted
mod Tests
use mlx_mesh.Base.{
  ℕ, Bool, true, false, Option, none, some, List, [], ◌∷◌, ◌++◌, ◌&&◌, ◌||◌, not, String, str_eq,
  if◌then◌else◌, any,
}
use mlx_mesh.Base.Int.{ℤ, pos, negsuc, ltb_ℤ}
use mlx_mesh.Base.Dict.{Dict}
use mlx_mesh.Base.Text.{codes, same_bytes, trim_space, to_lower}
use mlx_mesh.NodeConfig.Schedule.{Schedule, schedule_mode_window, parse_hhmm}

pub record DraftModel : Type 0 where
  pub draft_model_id : String
  pub num_draft_tokens : ℤ

pub record Config : Type 0 where
  pub memory_cap_pct : ℤ
  pub sensitivity_cap : String
  pub exo_url : String
  pub pod_endpoint : String
  pub reachability_endpoint : String
  pub schedule : Schedule
  pub draft_models : Dict DraftModel

pub data ConfigError : Type 0 where
  bad_memory_cap bad_sensitivity_cap bad_mode bad_daily_start bad_daily_end : ConfigError
  bad_endpoint : String → ConfigError
  bad_day : List ℕ → ConfigError
  empty_model_id : ConfigError
  missing_draft_model negative_draft_tokens : String → ConfigError

-- The scheme and the host of a URL; none where it does not parse.
abbrev pub ParseUrl : Type 0
ParseUrl = String → Option (String × String)

-- An error if the test says so.
abbrev pub error_if : Bool → ConfigError → List ConfigError
error_if true e = e ∷ []
error_if false e = []

unfoldable pub valid_weekdays : List String
valid_weekdays = "mon" ∷ "tue" ∷ "wed" ∷ "thu" ∷ "fri" ∷ "sat" ∷ "sun" ∷ []

unfoldable pub is_weekday : List ℕ → Bool
is_weekday d = any (λ name. same_bytes (to_lower (trim_space d)) (codes name)) valid_weekdays

unfoldable pub is_http_url : ParseUrl → String → Bool
is_http_url parse raw = elim (parse raw) [
  | none ↦ false
  | some (scheme, host) ↦ (str_eq scheme "http" || str_eq scheme "https") && not (str_eq host "")
]

unfoldable pub check_endpoint : ParseUrl → String → String → List ConfigError
check_endpoint parse name val =
    if str_eq val "" then [] else error_if (not (is_http_url parse val)) (bad_endpoint name)

is_read : Option ℕ → Bool
is_read none = false
is_read (some n) = true

unfoldable pub check_mode : Schedule → List ConfigError
unfolding is_read
check_mode s =
    if str_eq s.mode "" || str_eq s.mode "always"
    then []
    else if str_eq s.mode schedule_mode_window
    then error_if (not (is_read (parse_hhmm s.daily_start))) bad_daily_start
      ++ error_if (not (is_read (parse_hhmm s.daily_end))) bad_daily_end
    else bad_mode ∷ []

unfoldable pub check_days : List (List ℕ) → List ConfigError
check_days [] = []
check_days (d ∷ ds) = error_if (not (is_weekday d)) (bad_day d) ++ check_days ds

unfoldable pub validate_schedule : Schedule → List ConfigError
validate_schedule s = check_mode s ++ check_days s.days

unfoldable pub check_drafts : Dict DraftModel → List ConfigError
check_drafts [] = []
check_drafts (e ∷ m) =
    error_if (str_eq e.0 "") empty_model_id
    ++ (error_if (str_eq e.1.draft_model_id "") (missing_draft_model e.0)
        ++ (error_if (ltb_ℤ e.1.num_draft_tokens (pos 0)) (negative_draft_tokens e.0)
            ++ check_drafts m))

-- `validSensitivityCaps`, and the empty cap.
unfoldable pub is_sensitivity_cap : String → Bool
is_sensitivity_cap cap =
    str_eq cap ""
    || (str_eq cap "low" || (str_eq cap "moderate" || str_eq cap "high_requires_attestation"))

unfoldable pub validate : ParseUrl → Config → List ConfigError
validate parse cfg =
    error_if (not (ltb_ℤ (pos 0) cfg.memory_cap_pct) || ltb_ℤ (pos 1000000) cfg.memory_cap_pct)
      bad_memory_cap
    ++ (error_if (not (is_sensitivity_cap cfg.sensitivity_cap)) bad_sensitivity_cap
        ++ (check_endpoint parse "exo_url" cfg.exo_url
            ++ (check_endpoint parse "pod_endpoint" cfg.pod_endpoint
                ++ (check_endpoint parse "reachability_endpoint" cfg.reachability_endpoint
                    ++ (validate_schedule cfg.schedule ++ check_drafts cfg.draft_models)))))
