-- ===== src/Bridge/Config/Document.antt =====
-- A file BRIDGE.md: the front matter between two lines `---`, its sections, and their validation.
pub mod Fallback
use Prim.Native.Char.{code}
use Prim.Native.String.{◌++◌ as append_str}
use sinfonia.Base.{
  ℕ, ◌==◌, String, Bool, true, false, not, Option, none, some, List, [], ◌∷◌, ◌⊎◌, ℤ, str_eq, trim,
  starts_with, lines, concat, if◌then◌else◌,
}
use sinfonia.Domain.{F64}
use sinfonia.Json.{Json, object, no_fields}
use sinfonia.Bridge.Types.{
  Error, bridge_parse_error, bridge_front_matter_not_map, Result, ok, err, BridgeConfig,
}
use sinfonia.Bridge.Config.Defaults.{
  Platform, Yaml, malformed, mapping, nothing, other_value, ◌>>=◌, ◌>>◌,
}
use sinfonia.Bridge.Config.Sections.{
  parse_tracker, parse_github, parse_feedback_loop, parse_custom_fields, parse_server,
  parse_storage, parse_telemetry,
}
use sinfonia.Bridge.Config.Validate.{validate}

-- `trim_start_matches('\u{feff}')`
abbrev pub strip_marks : String → String
strip_marks String.[] = String.[]
strip_marks (String.◌∷◌ c s) =
    let rest = strip_marks s in if code c == 65279 then rest else String.◌∷◌ c s

abbrev pub is_fence : String → Bool
is_fence line = str_eq (trim line) "---"

-- The lines up to the fence, each with its line break; none where there is no fence.
unfoldable pub front_matter_of : List String → Option String
front_matter_of [] = none
front_matter_of (line ∷ rest) = elim (front_matter_of rest) [
  | none ↦ if is_fence line then some "" else none
  | some fm ↦ if is_fence line then some "" else some (concat (line ∷ "\n" ∷ fm ∷ []))
]

abbrev pub after_first : List String → Option String
after_first [] = none
after_first (first ∷ rest) = if is_fence first then front_matter_of rest else none

-- The first part of the pair: the body is not read.
unfoldable pub split_front_matter : String → Option String
split_front_matter s =
    if not (starts_with (strip_marks s) "---") then none else after_first (lines (strip_marks s))

abbrev pub config_of : Yaml → Result Json
config_of (malformed e) = err (bridge_parse_error e)
config_of (mapping config) = ok config
config_of nothing = ok (object no_fields)
config_of other_value = err bridge_front_matter_not_map

module _ (sys : Platform) where
  unfoldable pub parse_config : Json → Result BridgeConfig
  parse_config config = do
    tracker ← parse_tracker sys (some config)
    let github = parse_github sys (some config)
    feedback_loop ← parse_feedback_loop sys (some config)
    server ← parse_server sys (some config)
    let cfg : BridgeConfig = record {
      tracker = tracker;
      github = github;
      feedback_loop = feedback_loop;
      custom_fields = parse_custom_fields (some config);
      server = server;
      storage = parse_storage sys (some config);
      telemetry = parse_telemetry sys (some config);
    }
    validate sys.to_lowercase cfg
    ok cfg

  unfoldable pub parse_bridge_str : String → Result BridgeConfig
  parse_bridge_str s = elim (split_front_matter s) [
    | none ↦ err (bridge_parse_error "BRIDGE.md has no YAML front matter (expected `---` fence)")
    | some fm ↦ config_of (sys.load_yaml fm) >>= parse_config
  ]
