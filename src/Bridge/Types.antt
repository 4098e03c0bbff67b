-- ===== src/Bridge/Types.antt =====
-- The data of the bridge: crates/sinfonia-bridge/src/config.rs (the configuration), github/client.rs (what GitHub answers), storage.rs (a landing).
-- A compiled regular expression is the test that it makes, `is_match`.
use sinfonia.Base.{
  ℕ, String, Bool, false, ◌&&◌, not, Option, none, some, List, Map, any, all, is_empty, ℤ, str_eq,
  if◌then◌else◌,
}
use sinfonia.Domain.{F64}
use sinfonia.Tracker.Config.{TrackerKind}

pub data Error : Type 0 where
  tracker git_hub storage other bridge_parse_error bridge_config_invalid : String → Error
  bridge_front_matter_not_map : Error

pub data Result {ℓ} (A : Type ℓ) : Type ℓ where
  ok : A → Result A
  err : Error → Result A

pub record CheckRunSummary : Type 0 where
  pub failed : List String
  pub passed : List String
  pub any_pending : Bool

pub record PrLanding : Type 0 where
  pub head_sha : String
  pub base_ref : String
  pub merged : Bool
  pub state : String
  pub mergeable_state : String
  pub mergeable : Option Bool

pub data UpdateBranchOutcome : Type 0 where
  accepted stale conflict : UpdateBranchOutcome

pub data MergeOutcome : Type 0 where
  merged : String → MergeOutcome
  not_mergeable sha_mismatch : MergeOutcome

pub data LandingStatus : Type 0 where
  queued updating awaiting_ci merging conflict failed : LandingStatus

pub record LandingRow : Type 0 where
  pub repo : String
  pub pr_number : ℕ
  pub ticket_id : String
  pub head_sha : String
  pub status : LandingStatus
  pub attempt : ℕ
  pub updated_at : ℕ

pub record MergeCoordinatorSection : Type 0 where
  pub enabled : Bool
  pub merge_method : String
  pub max_update_cycles : ℕ

pub record FailureCategory : Type 0 where
  pub name : String
  pub check_pattern : Option (String → Bool)
  pub target_state : String
  pub priority : ℤ

pub record CustomFieldsSection : Type 0 where
  pub attempt_count : String
  pub last_failure_log : String
  pub max_attempts_override : String
  pub failure_category : String
  pub tokens_consumed : String
  pub cost_consumed_usd : String
  pub max_cost_override_usd : String

pub record LabelAliases : Type 0 where
  pub in_progress : Option String
  pub awaiting_review : Option String
  pub needs_fixes : Option String
  pub cap_hit : Option String
  pub budget_exceeded : Option String
  pub failure_prefix : Option String

pub record HarnessManifestSection : Type 0 where
  pub ingest : Bool
  pub artifact_glob : String
  pub filename : String
  pub max_artifact_bytes : ℕ
  pub max_failures_parsed : ℕ
  pub max_failure_digest_bytes : ℕ

-- `pr_link_pattern` is what the pattern's first group captures, where it matches.
pub record FeedbackLoopSection : Type 0 where
  pub max_attempts : ℕ
  pub needs_fixes_state : String
  pub blocked_state : String
  pub awaiting_review_state : Option String
  pub pr_link_pattern : String → Option String
  pub required_checks : List String
  pub max_tokens_per_ticket : Option ℕ
  pub max_cost_per_ticket_usd : Option F64
  pub budget_exceeded_state : String
  pub failure_comment_template : String
  pub failure_categories : List FailureCategory
  pub harness_manifest : HarnessManifestSection
  pub merge_coordinator : MergeCoordinatorSection

pub record TrackerSection : Type 0 where
  pub kind : TrackerKind
  pub endpoint : String
  pub api_key : Option String
  pub project_slug : Option String
  pub active_states : List String
  pub terminal_states : List String
  pub jira_email : Option String

pub record GitHubSection : Type 0 where
  pub webhook_secret : Option String
  pub pat : Option String
  pub app_id : Option ℕ
  pub private_key : Option String
  pub manage_labels : Bool
  pub label_prefix : String
  pub label_aliases : LabelAliases

-- A URL is its text.
pub record ServerSection : Type 0 where
  pub bind : String
  pub port : ℕ
  pub public_url : Option String

pub record StorageSection : Type 0 where
  pub state_db_path : String

pub record TelemetrySection : Type 0 where
  pub otlp_endpoint : Option String
  pub service_name : String
  pub tenant_id : Option String
  pub headers : Map String
  pub sinfonia_events_secret : Option String
  pub sinfonia_event_subscribe_url : Option String
  pub sinfonia_event_callback_url : Option String

-- Without the path of the file that it was read from
pub record BridgeConfig : Type 0 where
  pub tracker : TrackerSection
  pub github : GitHubSection
  pub feedback_loop : FeedbackLoopSection
  pub custom_fields : CustomFieldsSection
  pub server : ServerSection
  pub storage : StorageSection
  pub telemetry : TelemetrySection

unfoldable pub all_passed : CheckRunSummary → Bool
all_passed s = not s.any_pending && is_empty s.failed && not (is_empty s.passed)

unfoldable pub has_failed : CheckRunSummary → Bool
has_failed s = not (is_empty s.failed)

abbrev pub contains : List String → String → Bool
contains xs r = any (λ x. str_eq x r) xs

unfoldable pub is_green : CheckRunSummary → List String → Bool
unfolding all_passed
is_green s required =
    if s.any_pending
    then false
    else if is_empty required
    then all_passed s
    else all (λ r. contains s.passed r && not (contains s.failed r)) required

unfoldable pub required_failed : CheckRunSummary → List String → Bool
unfolding has_failed
required_failed s required =
    if is_empty required then has_failed s else any (λ r. contains s.failed r) required

-- `LandingStatus::as_str` and `parse`
unfoldable pub status_str : LandingStatus → String
status_str queued = "queued"
status_str updating = "updating"
status_str awaiting_ci = "awaiting_ci"
status_str merging = "merging"
status_str conflict = "conflict"
status_str failed = "failed"

unfoldable pub parse_status : String → Option LandingStatus
parse_status s =
    if str_eq s "queued"
    then some queued
    else if str_eq s "updating"
    then some updating
    else if str_eq s "awaiting_ci"
    then some awaiting_ci
    else if str_eq s "merging"
    then some merging
    else if str_eq s "conflict"
    then some conflict
    else if str_eq s "failed"
    then some failed
    else none
