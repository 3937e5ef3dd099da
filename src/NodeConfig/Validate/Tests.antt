-- ===== src/NodeConfig/Validate/Tests.antt =====
-- A configuration with a window: internal/nodeconfig/validate.go.
use mlx_mesh.Base.{◌⊎◌, ◌≡◌, ◌↔◌, refl, true, some, [], ◌∷◌, All, arith}
use mlx_mesh.Base.Int.{pos}
use mlx_mesh.Base.Text.{codes, same_bytes, is_space, trim_left, trim_right, trim_space, to_lower}
use mlx_mesh.NodeConfig.Schedule.{
  is_active_now, split_colon, digits_from, digits, positive, negative, atoi, up_to, minutes_of,
  parse_hhmm,
}
use mlx_mesh.NodeConfig.Schedule.Nights.{IsInHours}
use mlx_mesh.NodeConfig.Validate.{
  Config, ParseUrl, is_weekday, valid_weekdays, validate, validate_schedule, check_mode, check_days,
  check_drafts, check_endpoint, is_http_url, is_sensitivity_cap, bad_memory_cap, bad_day,
}
use mlx_mesh.NodeConfig.Validate.Accepted.{IsWeekday, validate-IsInHours}

abbrev parse : ParseUrl
parse raw = some ("http", raw)

abbrev config : Config
config = record {
  memory_cap_pct = pos 500000;
  sensitivity_cap = "low";
  exo_url = "";
  pod_endpoint = "pod";
  reachability_endpoint = "";
  schedule = record {
    mode = "window";
    daily_start = codes "22:00";
    daily_end = codes "07:00";
    days = codes "Fri " ∷ [];
  };
  draft_models = [];
}

config_clean : validate parse config ≡ []
unfolding validate validate_schedule check_mode check_days check_drafts check_endpoint is_http_url
    is_sensitivity_cap is_weekday valid_weekdays same_bytes is_space trim_left trim_right trim_space
    to_lower split_colon digits_from digits positive negative atoi up_to minutes_of parse_hhmm
config_clean = refl

two_errors :
    validate parse (record config {
      memory_cap_pct = pos 50000000;
      schedule = record { mode = ""; daily_start = []; daily_end = []; days = codes "Fry" ∷ [] };
    })
    ≡ bad_memory_cap ∷ bad_day (codes "Fry") ∷ []
unfolding validate validate_schedule check_mode check_days check_drafts check_endpoint is_http_url
    is_sensitivity_cap is_weekday valid_weekdays same_bytes is_space trim_left trim_right trim_space
    to_lower split_colon digits_from digits positive negative atoi up_to minutes_of parse_hhmm
two_errors = refl

validate-IsInHours_example :
    (((config.schedule.mode ≡ "") ⊎ (config.schedule.mode ≡ "always"))
      ⊎ ((config.schedule.mode ≡ "window")
          × ((is_active_now config.schedule 5 1380 ≡ true) ↔ IsInHours config.schedule 5 1380)))
    × All IsWeekday config.schedule.days
validate-IsInHours_example =
    validate-IsInHours parse config 5 1380 config_clean (omega arith) (omega arith)
