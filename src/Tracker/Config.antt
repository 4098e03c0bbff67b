-- ===== src/Tracker/Config.antt =====
-- crates/sinfonia-tracker/src/config.rs: which tracker, and how it is reached.
use sinfonia.Base.{String, Option, none, some, List, str_eq, if◌then◌else◌}

pub data TrackerKind : Type 0 where
  linear jira : TrackerKind

pub record TrackerConfig : Type 0 where
  pub kind : TrackerKind
  pub endpoint : String
  pub api_key : Option String
  pub project_slug : Option String
  pub active_states : List String
  pub terminal_states : List String
  pub jira_email : Option String

-- None for a kind that is not supported, whose lower-case name the error holds.
unfoldable pub parse_kind : (String → String) → String → Option TrackerKind
parse_kind to_lowercase s =
    if str_eq (to_lowercase s) "linear"
    then some linear
    else if str_eq (to_lowercase s) "jira"
    then some jira
    else none
