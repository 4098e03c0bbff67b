-- ===== src/Daemon/Config/Parse/Whole.antt =====
-- crates/sinfonia/src/config/loader.rs and `ServiceConfig::from_workflow`: from the text of a WORKFLOW.md to
-- the configuration, and what a configuration that was read satisfies.
use Prim.Native.Char.{code}
use sinfonia.Base.{
  ◌==◌, String, Bool, not, Option, none, some, List, [], ◌∷◌, str_eq, trim, lines, starts_with,
  concat, map_option, if◌then◌else◌,
}
use sinfonia.Json.{Json, object, no_fields}
use sinfonia.Daemon.Config.{Result, ok, err, parse_error, front_matter_not_map, ServiceConfig}
use sinfonia.Daemon.Config.Parse.{
  Host, ◌>>=◌, parse_tracker, parse_polling, parse_workspace, parse_hooks, parse_agent,
  parse_dispatch_allowlist, parse_server, parse_telemetry,
}
use sinfonia.Daemon.Config.Parse.Llm.{parse_llm, parse_states}

pub record WorkflowDefinition : Type 0 where
  pub config : Json
  pub prompt_template : String

-- What `serde_yaml` makes of a text
pub data Yaml : Type 0 where
  malformed : String → Yaml
  mapping : Json → Yaml
  nothing other_value : Yaml

abbrev strip_marks : String → String
strip_marks String.[] = String.[]
strip_marks (String.◌∷◌ c s) =
    let rest = strip_marks s in if code c == 65279 then rest else String.◌∷◌ c s

abbrev is_fence : String → Bool
is_fence line = str_eq (trim line) "---"

abbrev joined : List String → String
joined [] = ""
joined (line ∷ rest) = concat (line ∷ "\n" ∷ joined rest ∷ [])

-- The lines in front of the next fence, and those behind it
abbrev at_fence : List String → Option (String × String)
at_fence [] = none
at_fence (line ∷ rest) =
    let later =
      map_option (λ (parts : String × String). (concat (line ∷ "\n" ∷ parts.0 ∷ []), parts.1))
        (at_fence rest) in
    if is_fence line then some ("", joined rest) else later

abbrev behind_first : List String → Option (String × String)
behind_first [] = none
behind_first (first ∷ rest) = if is_fence first then at_fence rest else none

abbrev whole_or : String → Option (String × String) → Option String × String
whole_or text none = (none, text)
whole_or text (some (fm, body)) = (some fm, body)

unfoldable pub split_front_matter : String → Option String × String
split_front_matter text =
    let s = strip_marks text in
    whole_or s (if not (starts_with s "---") then none else behind_first (lines s))

abbrev config_of : Yaml → Result Json
config_of (malformed e) = err (parse_error e)
config_of (mapping config) = ok config
config_of nothing = ok (object no_fields)
config_of other_value = err front_matter_not_map

abbrev front_config : (String → Yaml) → Option String → Result Json
front_config load_yaml none = ok (object no_fields)
front_config load_yaml (some fm) = config_of (load_yaml fm)

unfoldable pub parse_workflow_str : (String → Yaml) → String → Result WorkflowDefinition
parse_workflow_str load_yaml text =
    let (front_matter, body) = split_front_matter text in
    front_config load_yaml front_matter >>= λ config.
    ok (record { config = config; prompt_template = trim body })

module _ (host : Host) where
  unfoldable pub from_workflow : Json → Result ServiceConfig
  from_workflow def =
      let config = some def in
      do
        tracker ← parse_tracker host config
        hooks ← parse_hooks config
        agent ← parse_agent host config
        llm ← parse_llm host config
        states ← parse_states host config
        ok (record {
          tracker = tracker;
          polling = parse_polling config;
          workspace = parse_workspace host config;
          hooks = hooks;
          agent = agent;
          dispatch_allowlist = parse_dispatch_allowlist config;
          llm = llm;
          server = parse_server config;
          telemetry = parse_telemetry host config;
          states = states;
        })
