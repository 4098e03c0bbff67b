-- ===== src/Daemon/Orchestrator/Snapshot.antt =====
-- crates/sinfonia/src/orchestrator/state.rs: what the daemon shows of its state. Times are in milliseconds,
-- `seconds_running` too; `time` is the text of a time in JSON, `json_of` the value of a rate limit report.
pub mod Views
use sinfonia.Base.{
  ℕ, ◌+◌, ◌-◌, String, Bool, true, false, Option, none, some, List, [], ◌∷◌, ℤ, pos, map, Map,
  values, length, find, is_some, str_eq, concat, unwrap_or, map_option, and_then, or_else,
  if◌then◌else◌,
}
use sinfonia.Domain.{
  LiveSession, RunningEntry, RetryEntry, CodexTotals, RateLimitSnapshot, OrchestratorState,
}
use sinfonia.Json.{Json, null, text, integer, object, no_fields, field}

pub record TokenView : Type 0 where
  pub input_tokens : ℕ
  pub output_tokens : ℕ
  pub total_tokens : ℕ

pub record RunningRow : Type 0 where
  pub issue_id : String
  pub issue_identifier : String
  pub state : String
  pub session_id : Option String
  pub turn_count : ℕ
  pub last_event : Option String
  pub last_message : Option String
  pub started_at : ℕ
  pub last_event_at : Option ℕ
  pub tokens : TokenView

pub record RetryRow : Type 0 where
  pub issue_id : String
  pub issue_identifier : String
  pub attempt : ℕ
  pub due_at : ℕ
  pub error : Option String

pub record SnapshotCounts : Type 0 where
  pub running : ℕ
  pub retrying : ℕ

pub record CodexTotalsView : Type 0 where
  pub input_tokens : ℕ
  pub output_tokens : ℕ
  pub total_tokens : ℕ
  pub seconds_running : ℕ

pub record SnapshotView : Type 0 where
  pub generated_at : ℕ
  pub counts : SnapshotCounts
  pub running : List RunningRow
  pub retrying : List RetryRow
  pub codex_totals : CodexTotalsView
  pub rate_limits : Option RateLimitSnapshot

-- The thread and the turn, or the thread alone
abbrev pub session_label : LiveSession → Option String
session_label s =
    or_else (and_then s.thread_id (λ t. map_option (λ u. concat (t ∷ "-" ∷ u ∷ [])) s.turn_id))
      s.thread_id

unfoldable pub running_row : RunningEntry → RunningRow
running_row r = record {
  issue_id = r.issue_id;
  issue_identifier = r.identifier;
  state = r.issue.state;
  session_id = session_label r.session;
  turn_count = r.session.turn_count;
  last_event = r.session.last_codex_event;
  last_message = r.session.last_codex_message;
  started_at = r.started_at;
  last_event_at = r.session.last_codex_timestamp;
  tokens = record {
    input_tokens = r.session.codex_input_tokens;
    output_tokens = r.session.codex_output_tokens;
    total_tokens = r.session.codex_total_tokens;
  };
}

unfoldable pub retry_row : RetryEntry → RetryRow
retry_row r = record {
  issue_id = r.issue_id;
  issue_identifier = r.identifier;
  attempt = r.attempt;
  due_at = r.due_at;
  error = r.error;
}

-- The time of the runs so far: a run that starts in the future counts nothing.
abbrev pub elapsed : ℕ → List RunningEntry → ℕ → ℕ
elapsed now [] seconds = seconds
elapsed now (r ∷ rest) seconds = elapsed now rest (seconds + (now - r.started_at))

unfoldable pub build_snapshot : ℕ → OrchestratorState → SnapshotView
build_snapshot now state = record {
  generated_at = now;
  counts = record { running = length state.running; retrying = length state.retry_attempts };
  running = map running_row (values state.running);
  retrying = map retry_row (values state.retry_attempts);
  codex_totals = record {
    input_tokens = state.codex_totals.input_tokens;
    output_tokens = state.codex_totals.output_tokens;
    total_tokens = state.codex_totals.total_tokens;
    seconds_running = elapsed now (values state.running) state.codex_totals.seconds_running;
  };
  rate_limits = state.codex_rate_limits;
}

abbrev pub or_null : {A : Type 0} → (A → Json) → Option A → Json
or_null f none = null
or_null f (some a) = f a

abbrev pub json_number : ℕ → Json
json_number n = integer (pos n)

module _ (time : ℕ → String) where
  abbrev pub running_json : RunningEntry → Json
  running_json r =
      let s = r.session in
      object (
        field "session_id" (or_null text s.thread_id) (
          field "turn_count" (json_number s.turn_count) (
            field "state" (text r.issue.state) (
              field "started_at" (text (time r.started_at)) (
                field "last_event" (or_null text s.last_codex_event) (
                  field "last_message" (or_null text s.last_codex_message) (
                    field "last_event_at" (or_null (λ t. text (time t)) s.last_codex_timestamp) (
                      field "tokens"
                        (object (
                          field "input_tokens" (json_number s.codex_input_tokens) (
                            field "output_tokens" (json_number s.codex_output_tokens)
                              (field "total_tokens" (json_number s.codex_total_tokens) no_fields))))
                        no_fields))))))))

  abbrev pub retry_json : RetryEntry → Json
  retry_json r = object (
      field "attempt" (json_number r.attempt)
        (field "due_at" (text (time r.due_at)) (field "error" (or_null text r.error) no_fields)))

  abbrev pub view_of : String → Option RunningEntry → Option RetryEntry → Json
  view_of identifier entry retry = object (
      field "issue_identifier" (text identifier) (
        field "issue_id"
          (text (
            unwrap_or
              (or_else (map_option (λ (r : RunningEntry). r.issue_id) entry)
                (map_option (λ (r : RetryEntry). r.issue_id) retry))
              ""))
          (field "status" (text (if is_some entry then "running" else "retrying")) (
            field "running" (or_null running_json entry) (
              field "retry" (or_null retry_json retry) (
                field "last_error" (or_null text (and_then retry (λ (r : RetryEntry). r.error)))
                  (field "tracked" (object no_fields) no_fields)))))))

  abbrev pub found_view : String → Option RunningEntry → Option RetryEntry → Option Json
  found_view identifier none none = none
  found_view identifier entry retry = some (view_of identifier entry retry)

  unfoldable pub build_issue_view : OrchestratorState → String → Option Json
  build_issue_view state identifier =
      found_view identifier
        (find (λ (r : RunningEntry). str_eq r.identifier identifier) (values state.running))
        (find (λ (r : RetryEntry). str_eq r.identifier identifier) (values state.retry_attempts))
