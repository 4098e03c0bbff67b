-- ===== src/Bridge/Config/Examples.antt =====
-- A configuration in use, and a file that is read.
use sinfonia.Base.{
  lines, trim_end, trim_start, is_blank, ◌≡◌, ◌↔◌, refl, String, none, some, List, str_eq, inr,
}
use sinfonia.Domain.{nan}
use sinfonia.Json.{Json, text, object, no_fields, field}
use sinfonia.Bridge.Types.{Result, ok, err, BridgeConfig}
use sinfonia.Bridge.Config.Defaults.{Platform, mapping, ◌>>=◌, resolve_var_string}
use sinfonia.Bridge.Config.Sections.{
  parse_tracker, parse_feedback_loop, parse_failure_categories, parse_server, parse_public_url,
  parse_github, parse_custom_fields, parse_merge_coordinator, parse_telemetry,
}
use sinfonia.Tracker.Config.{parse_kind}
use sinfonia.Bridge.Config.Validate.{
  validate, check_github, check_tracker, check_states, check_priorities, check_fields,
  check_telemetry, last_name,
}
use sinfonia.Bridge.Config.Validate.Accepted.{IsValid, validate-IsValid}
use sinfonia.Bridge.Config.Document.{
  split_front_matter, front_matter_of, parse_config, parse_bridge_str,
}
use sinfonia.Bridge.Config.Document.Fallback.{Placed, parse_bridge_str-IsValid}
use sinfonia.Bridge.Examples.{cfg}

abbrev sys : Platform
sys = record {
  env_var = λ name. none;
  to_lowercase = λ s. s;
  compile = λ pattern. inr (record { is_match = str_eq pattern; capture = λ s. some s });
  parse_url = λ s. inr s;
  tilde = λ s. s;
  f64_of = λ n. nan;
  load_yaml = λ s. mapping front;
}
  where
    front : Json
    front = object (
        field "tracker" (object (field "kind" (text "linear") no_fields))
          (field "github" (object (field "pat" (text "token") no_fields)) no_fields))

abbrev file : String
file = "---\ntracker:\n---\n"

abbrev or_cfg : Result BridgeConfig → BridgeConfig
or_cfg (ok c) = c
or_cfg (err e) = cfg

abbrev read : BridgeConfig
read = or_cfg (parse_bridge_str sys file)

reads : parse_bridge_str sys file ≡ ok read
unfolding parse_bridge_str split_front_matter front_matter_of parse_config lines trim_end trim_start
    is_blank ◌>>=◌ parse_tracker parse_kind parse_feedback_loop parse_failure_categories
    parse_server parse_public_url validate check_github parse_github resolve_var_string
    check_tracker check_states check_priorities check_fields check_telemetry last_name
    parse_custom_fields parse_merge_coordinator parse_telemetry
reads = refl

validate-IsValid_example : (validate sys.to_lowercase cfg ≡ ok tt) ↔ IsValid sys.to_lowercase cfg
validate-IsValid_example = validate-IsValid sys.to_lowercase cfg

parse_bridge_str-IsValid_example :
    IsValid sys.to_lowercase read
    × ((failed : List String) → Placed failed read.feedback_loop.failure_categories)
parse_bridge_str-IsValid_example = parse_bridge_str-IsValid sys file read reads
