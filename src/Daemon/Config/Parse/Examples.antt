-- ===== src/Daemon/Config/Parse/Examples.antt =====
-- A WORKFLOW.md whose state `Doing` has a prompt and a limit.
use sinfonia.Base.{refl, ◌≡◌, none}
use sinfonia.Domain.{nan}
use sinfonia.Json.{Json, text, object, no_fields, field}
use sinfonia.Tracker.Config.{parse_kind}
use sinfonia.Daemon.Config.{Result, ok, err, ServiceConfig}
use sinfonia.Daemon.Config.Parse.{Host, ◌>>=◌, parse_tracker, parse_hooks, parse_agent}
use sinfonia.Daemon.Config.Parse.Llm.{
  parse_llm, parse_states, parse_provider, overrides_of, override_of,
}
use sinfonia.Daemon.Config.Parse.Whole.{from_workflow}
use sinfonia.Daemon.Examples.{config}

abbrev host : Host
host = record {
  env_var = λ name. none;
  to_lowercase = λ s. s;
  tilde = λ s. s;
  f64_of = λ n. nan;
  absolute = λ s. s;
  temp_workspaces = "/tmp/sinfonia_workspaces";
}

abbrev workflow : Json
workflow = object (
    field "tracker" (object (field "kind" (text "linear") no_fields)) (
      field "states"
        (object (field "doing" (object (field "prompt" (text "Go on.") no_fields)) no_fields))
        no_fields))

abbrev or_config : Result ServiceConfig → ServiceConfig
or_config (ok c) = c
or_config (err e) = config

abbrev read : ServiceConfig
read = or_config (from_workflow host workflow)

reads : from_workflow host workflow ≡ ok read
unfolding from_workflow ◌>>=◌ parse_tracker parse_kind parse_hooks parse_agent parse_llm
    parse_states parse_provider overrides_of override_of
reads = refl
