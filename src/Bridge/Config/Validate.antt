-- ===== src/Bridge/Config/Validate.antt =====
-- `validate` of crates/sinfonia-bridge/src/config.rs, rule by rule.
pub mod Rules
pub mod Priorities
pub mod Accepted
use sinfonia.Base.{
  ℕ, suc, decimal, leb, ltb, String, Bool, true, false, ◌&&◌, ◌||◌, not, Option, none, some, List,
  [], ◌∷◌, ℤ, pos, negsuc, ◌==◌, str_eq, is_blank, is_empty_str, concat, is_some, unwrap_or,
  starts_with, if◌then◌else◌,
}
use Prim.Native.Nat.{Ordering}
use sinfonia.Tracker.Config.{TrackerKind, linear, jira}
use sinfonia.Bridge.Types.{
  Result, ok, err, bridge_config_invalid, TrackerSection, GitHubSection, FeedbackLoopSection,
  MergeCoordinatorSection, FailureCategory, CustomFieldsSection, TelemetrySection, BridgeConfig,
}
use sinfonia.Bridge.Config.Defaults.{◌>>=◌, ◌>>◌, refuse_if}

-- `str::contains`
unfoldable pub contains_str : String → String → Bool
contains_str String.[] part = starts_with "" part
contains_str (String.◌∷◌ c s) part = starts_with (String.◌∷◌ c s) part || contains_str s part

abbrev pub show_int : ℤ → String
show_int (pos n) = decimal n
show_int (negsuc n) = concat ("-" ∷ decimal (suc n) ∷ [])

abbrev pub same_int : ℤ → ℤ → Bool
same_int (pos a) (pos b) = a == b
same_int (pos a) (negsuc b) = false
same_int (negsuc a) (pos b) = false
same_int (negsuc a) (negsuc b) = a == b

unfoldable pub check_github : GitHubSection → Result (Unit {0})
check_github g =
    refuse_if ((is_some g.pat && is_some g.app_id) || not (is_some g.pat || is_some g.app_id))
      "github: must set either pat or app_id (mutually exclusive)"
    >> refuse_if (is_some g.app_id && not (is_some g.private_key))
        "github: app_id set but private_key missing"

unfoldable pub check_tracker : (String → String) → TrackerSection → Result (Unit {0})
check_tracker to_lowercase t = elim t.kind [
  | linear ↦ ok tt
  | jira ↦
      refuse_if (is_blank t.endpoint)
        "tracker.endpoint is required when kind: jira (e.g. https://acme.atlassian.net)"
      >> refuse_if
          (contains_str (to_lowercase t.endpoint) ".atlassian.net" && not (is_some t.jira_email))
          "tracker.email is required for Atlassian Cloud (kind: jira); omit it only for self-hosted Jira Server / Data Center PAT auth"
]

abbrev pub is_merge_method : String → Bool
is_merge_method s = str_eq s "rebase" || str_eq s "squash" || str_eq s "merge"

unfoldable pub check_states : FeedbackLoopSection → Result (Unit {0})
check_states f =
    refuse_if (ltb f.max_attempts 1) "feedback_loop.max_attempts must be >= 1"
    >> refuse_if (is_blank f.needs_fixes_state) "feedback_loop.needs_fixes_state must be non-empty"
    >> refuse_if (is_blank f.blocked_state) "feedback_loop.blocked_state must be non-empty"
    >> refuse_if
        (f.merge_coordinator.enabled && not (is_merge_method f.merge_coordinator.merge_method))
        (concat (
          "feedback_loop.merge_coordinator.merge_method must be one of rebase|squash|merge, got '"
          ∷ f.merge_coordinator.merge_method ∷ "'" ∷ []))

-- The `BTreeMap` of priorities seen: the name that stood last under a priority
unfoldable pub last_name : ℤ → List (ℤ × String) → Option String
last_name p [] = none
last_name p ((q, name) ∷ seen) = if same_int q p then some name else last_name p seen

-- Two names may share a priority where one of them is `default`.
abbrev pub may_share : Option String → String → Bool
may_share none name = true
may_share (some prev) name = str_eq prev "default" || str_eq name "default"

unfoldable pub check_priorities : List (ℤ × String) → List FailureCategory → Result (Unit {0})
check_priorities seen [] = ok tt
check_priorities seen (c ∷ rest) =
    refuse_if (not (may_share (last_name c.priority seen) c.name)) (
      concat (
        "feedback_loop: duplicate priority "
        ∷ show_int c.priority
        ∷ " across categories '"
        ∷ unwrap_or (last_name c.priority seen) ""
        ∷ "' and '"
        ∷ c.name
        ∷ "'"
        ∷ []))
    >> check_priorities ((c.priority, c.name) ∷ seen) rest

unfoldable pub check_fields : List (String × String) → Result (Unit {0})
check_fields [] = ok tt
check_fields ((label, value) ∷ rest) =
    refuse_if (is_blank value)
      (concat ("custom_fields." ∷ label ∷ " must be a non-empty string" ∷ []))
    >> check_fields rest

abbrev pub labelled : CustomFieldsSection → List (String × String)
labelled c =
    ("attempt_count", c.attempt_count)
    ∷ ("last_failure_log", c.last_failure_log)
    ∷ ("max_attempts_override", c.max_attempts_override)
    ∷ ("failure_category", c.failure_category)
    ∷ ("tokens_consumed", c.tokens_consumed)
    ∷ ("cost_consumed_usd", c.cost_consumed_usd)
    ∷ ("max_cost_override_usd", c.max_cost_override_usd)
    ∷ []

unfoldable pub check_telemetry : TelemetrySection → Result (Unit {0})
check_telemetry t =
    refuse_if
      (is_some t.sinfonia_event_subscribe_url
        && is_empty_str (unwrap_or t.sinfonia_events_secret ""))
      "telemetry.sinfonia_events_secret is required when sinfonia_event_subscribe_url is configured"

unfoldable pub validate : (String → String) → BridgeConfig → Result (Unit {0})
validate to_lowercase cfg =
    check_github cfg.github
    >> check_tracker to_lowercase cfg.tracker
    >> check_states cfg.feedback_loop
    >> check_priorities [] cfg.feedback_loop.failure_categories
    >> check_fields (labelled cfg.custom_fields)
    >> check_telemetry cfg.telemetry
