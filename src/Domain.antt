-- ===== src/Domain.antt =====
-- The data of the daemon: crates/sinfonia-tracker/src/types.rs and custom_fields.rs (issues as the
-- trackers report them), crates/sinfonia/src/domain.rs (the orchestrator's state).
-- A `DateTime<Utc>` is the number of milliseconds since an epoch; an `f64` count of seconds that
-- only adds milliseconds / 1000 is the number of milliseconds.
use Prim.Native.Char.{Char, code}
use sinfonia.Base.{
  ℕ, ◌==◌, leb, String, Bool, ◌&&◌, ◌||◌, Option, List, Map, StringSet, ℤ, if◌then◌else◌,
}

pub record BlockerRef : Type 0 where
  pub id : Option String
  pub identifier : Option String
  pub state : Option String

pub record ChildRef : Type 0 where
  pub id : Option String
  pub identifier : Option String
  pub state : String

-- An `f64`: not a number, an infinity, or ± mantissa * 2 ^ exponent.
pub data F64 : Type 0 where
  nan : F64
  infinity : Bool → F64
  finite : Bool → ℕ → ℤ → F64

pub data CustomFieldValue : Type 0 where
  null : CustomFieldValue
  number : F64 → CustomFieldValue
  string : String → CustomFieldValue

pub record Issue : Type 0 where
  pub id : String
  pub identifier : String
  pub title : String
  pub description : Option String
  pub priority : Option ℤ
  pub state : String
  pub branch_name : Option String
  pub url : Option String
  pub labels : List String
  pub blocked_by : List BlockerRef
  pub children : List ChildRef
  pub created_at : Option ℕ
  pub updated_at : Option ℕ
  pub fields : Map CustomFieldValue

pub record IssueState : Type 0 where
  pub id : String
  pub identifier : String
  pub state : String

pub record LiveSession : Type 0 where
  pub session_id : Option String
  pub thread_id : Option String
  pub turn_id : Option String
  pub codex_app_server_pid : Option String
  pub last_codex_event : Option String
  pub last_codex_timestamp : Option ℕ
  pub last_codex_message : Option String
  pub codex_input_tokens : ℕ
  pub codex_output_tokens : ℕ
  pub codex_total_tokens : ℕ
  pub last_reported_input_tokens : ℕ
  pub last_reported_output_tokens : ℕ
  pub last_reported_total_tokens : ℕ
  pub turn_count : ℕ

pub record RunningEntry : Type 0 where
  pub issue_id : String
  pub identifier : String
  pub issue : Issue
  pub workspace_path : String
  pub session : LiveSession
  pub retry_attempt : Option ℕ
  pub started_at : ℕ

pub record RetryEntry : Type 0 where
  pub issue_id : String
  pub identifier : String
  pub attempt : ℕ
  pub due_at : ℕ
  pub error : Option String

pub record CodexTotals : Type 0 where
  pub input_tokens : ℕ
  pub output_tokens : ℕ
  pub total_tokens : ℕ
  pub seconds_running : ℕ

-- The JSON value of a rate-limit report, as its text.
pub record RateLimitSnapshot : Type 0 where
  pub value : String

pub record OrchestratorState : Type 0 where
  pub poll_interval_ms : ℕ
  pub max_concurrent_agents : ℕ
  pub running : Map RunningEntry
  pub claimed : StringSet
  pub retry_attempts : Map RetryEntry
  pub completed : StringSet
  pub codex_totals : CodexTotals
  pub codex_rate_limits : Option RateLimitSnapshot

-- `c.is_ascii_alphanumeric() || c == '.' || c == '_' || c == '-'`
unfoldable pub is_safe_char : Char → Bool
is_safe_char ch =
    let c = code ch in
    (leb 48 c && leb c 57)
    || (leb 65 c && leb c 90)
    || (leb 97 c && leb c 122)
    || c == 46
    || c == 95
    || c == 45

abbrev pub underscore : Char
underscore = "_"

unfoldable pub sanitize_workspace_key : String → String
unfolding is_safe_char
sanitize_workspace_key String.[] = String.[]
sanitize_workspace_key (String.◌∷◌ c s) =
    String.◌∷◌ (if is_safe_char c then c else underscore) (sanitize_workspace_key s)
