-- ===== src/Bridge/Events/Body.antt =====
-- The body of an event, as serde reads it: every key but `version` is wanted, and a number must fit.
use sinfonia.Base.{ℕ, leb, String, Option, none, some, u32_max, u64_max, if◌then◌else◌}
use sinfonia.Json.{Json, get, as_str, as_u64}

pub record SessionCompletedEvent : Type 0 where
  pub event_type : String
  pub version : ℕ
  pub tenant_id : String
  pub issue_id : String
  pub issue_identifier : String
  pub state : String
  pub provider : String
  pub model : String
  pub turn_count : ℕ
  pub prompt_tokens : ℕ
  pub completion_tokens : ℕ
  pub duration_ms : ℕ
  pub exit_reason : String
  pub occurred_at : String

abbrev pub event_type_session_completed : String
event_type_session_completed = "runner.session.completed"

infixl 5 ◌>>=◌
abbrev ◌>>=◌ : {A B : Type 0} → Option A → (A → Option B) → Option B
none >>= next = none
some value >>= next = next value

abbrev pub text_of : Json → String → Option String
text_of v key = as_str (get (some v) key)

abbrev pub up_to : ℕ → Option ℕ → Option ℕ
up_to greatest none = none
up_to greatest (some n) = if leb n greatest then some n else none

abbrev pub u32_of : Json → String → Option ℕ
u32_of v key = up_to u32_max (as_u64 (get (some v) key))

abbrev pub u64_of : Json → String → Option ℕ
u64_of v key = up_to u64_max (as_u64 (get (some v) key))

-- `default_version` where the key is missing
abbrev pub version_of : Option Json → Option ℕ
version_of none = some 1
version_of (some v) = up_to u32_max (as_u64 (some v))

unfoldable pub parse_event : Json → Option SessionCompletedEvent
parse_event v = do
  event_type ← text_of v "type"
  version ← version_of (get (some v) "version")
  tenant_id ← text_of v "tenant_id"
  issue_id ← text_of v "issue_id"
  issue_identifier ← text_of v "issue_identifier"
  state ← text_of v "state"
  provider ← text_of v "provider"
  model ← text_of v "model"
  turn_count ← u32_of v "turn_count"
  prompt_tokens ← u64_of v "prompt_tokens"
  completion_tokens ← u64_of v "completion_tokens"
  duration_ms ← u64_of v "duration_ms"
  exit_reason ← text_of v "exit_reason"
  occurred_at ← text_of v "occurred_at"
  some (record {
    event_type = event_type;
    version = version;
    tenant_id = tenant_id;
    issue_id = issue_id;
    issue_identifier = issue_identifier;
    state = state;
    provider = provider;
    model = model;
    turn_count = turn_count;
    prompt_tokens = prompt_tokens;
    completion_tokens = completion_tokens;
    duration_ms = duration_ms;
    exit_reason = exit_reason;
    occurred_at = occurred_at;
  })
