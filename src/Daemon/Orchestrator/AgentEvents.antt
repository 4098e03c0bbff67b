-- ===== src/Daemon/Orchestrator/AgentEvents.antt =====
-- crates/sinfonia/src/agent/events.rs and `consume_agent_events` of orchestrator/mod.rs: what one
-- event of an agent does to the run that it belongs to and to the totals.
pub mod Accounting
use Prim.Native.String.{◌++◌}
use sinfonia.Base.{
  ℕ, zero, suc, ◌-◌, String, Bool, true, false, ◌&&◌, Option, none, some, Map, lookup, insert,
  u64_saturating_add, u32_saturating_add, is_some, unwrap_or, if◌then◌else◌,
}
use sinfonia.Domain.{LiveSession, RunningEntry, CodexTotals, OrchestratorState}

pub record TokenUsage : Type 0 where
  pub input_tokens : ℕ
  pub output_tokens : ℕ
  pub total_tokens : ℕ

-- Every event begins with its time.
pub data AgentEvent : Type 0 where
  session_started : ℕ → String → Option String → AgentEvent
  startup_failed : ℕ → String → AgentEvent
  turn_started : ℕ → String → String → AgentEvent
  turn_completed : ℕ → String → String → String → Option TokenUsage → AgentEvent
  turn_progress : ℕ → String → String → TokenUsage → AgentEvent
  turn_failed : ℕ → String → String → String → AgentEvent
  turn_cancelled : ℕ → String → String → AgentEvent
  turn_ended_with_error : ℕ → String → String → String → AgentEvent
  turn_input_required : ℕ → String → String → AgentEvent
  approval_auto_approved : ℕ → String → AgentEvent
  unsupported_tool_call : ℕ → String → AgentEvent
  notification : ℕ → String → AgentEvent
  other_message : ℕ → String → AgentEvent
  malformed : ℕ → String → AgentEvent
  -- thread, issue, identifier, state, provider, model, turns, prompt, completion, total, ms, reason
  session_completed :
      ℕ
      → String
      → String
      → String
      → String
      → String
      → String
      → ℕ
      → ℕ
      → ℕ
      → ℕ
      → ℕ
      → String
      → AgentEvent

unfoldable pub event_name : AgentEvent → String
event_name (session_started _ _ _) = "session_started"
event_name (startup_failed _ _) = "startup_failed"
event_name (turn_started _ _ _) = "turn_started"
event_name (turn_completed _ _ _ _ _) = "turn_completed"
event_name (turn_progress _ _ _ _) = "turn_progress"
event_name (turn_failed _ _ _ _) = "turn_failed"
event_name (turn_cancelled _ _ _) = "turn_cancelled"
event_name (turn_ended_with_error _ _ _ _) = "turn_ended_with_error"
event_name (turn_input_required _ _ _) = "turn_input_required"
event_name (approval_auto_approved _ _) = "approval_auto_approved"
event_name (unsupported_tool_call _ _) = "unsupported_tool_call"
event_name (notification _ _) = "notification"
event_name (other_message _ _) = "other_message"
event_name (malformed _ _) = "malformed"
event_name (session_completed _ _ _ _ _ _ _ _ _ _ _ _ _) = "session_completed"

unfoldable pub timestamp : AgentEvent → ℕ
timestamp (session_started t _ _) = t
timestamp (startup_failed t _) = t
timestamp (turn_started t _ _) = t
timestamp (turn_completed t _ _ _ _) = t
timestamp (turn_progress t _ _ _) = t
timestamp (turn_failed t _ _ _) = t
timestamp (turn_cancelled t _ _) = t
timestamp (turn_ended_with_error t _ _ _) = t
timestamp (turn_input_required t _ _) = t
timestamp (approval_auto_approved t _) = t
timestamp (unsupported_tool_call t _) = t
timestamp (notification t _) = t
timestamp (other_message t _) = t
timestamp (malformed t _) = t
timestamp (session_completed t _ _ _ _ _ _ _ _ _ _ _ _) = t

unfoldable pub summary_message : AgentEvent → Option String
summary_message (turn_completed _ _ _ message _) = some message
summary_message (turn_failed _ _ _ message) = some message
summary_message (turn_ended_with_error _ _ _ message) = some message
summary_message (startup_failed _ message) = some message
summary_message (notification _ message) = some message
summary_message (other_message _ message) = some message
summary_message _ = none

unfoldable pub usage : AgentEvent → Option TokenUsage
usage (turn_completed _ _ _ _ u) = u
usage (turn_progress _ _ _ u) = some u
usage _ = none

-- The thread and the turn that an event names.
abbrev pub new_ids : AgentEvent → Option String × Option String
new_ids (session_started _ thread _) = (some thread, none)
new_ids (turn_started _ thread turn) = (some thread, some turn)
new_ids (turn_completed _ thread turn _ _) = (some thread, some turn)
new_ids (turn_progress _ thread turn _) = (some thread, some turn)
new_ids (turn_failed _ thread turn _) = (some thread, some turn)
new_ids _ = (none, none)

abbrev pub is_turn_started : AgentEvent → Bool
is_turn_started (turn_started _ _ _) = true
is_turn_started _ = false

abbrev pub is_turn_completed : AgentEvent → Bool
is_turn_completed (turn_completed _ _ _ _ _) = true
is_turn_completed _ = false

-- `msg.chars().take(n).collect()`
pub take_chars : ℕ → String → String
take_chars zero s = ""
take_chars (suc n) String.[] = ""
take_chars (suc n) (String.◌∷◌ c s) = String.◌∷◌ c (take_chars n s)

abbrev or_old : Option String → Option String → Option String
or_old none old = old
or_old (some v) old = some v

abbrev session_id_of : Option String → Option String → Option String → Option String
session_id_of (some thread) (some turn) old = some (thread ++ "-" ++ turn)
session_id_of _ _ old = old

abbrev message_of : Option String → Option String → Option String
message_of none old = old
message_of (some msg) old = some (take_chars 2000 msg)

-- The fields that name the event, its thread and turn, and its message.
unfoldable pub note_event : AgentEvent → LiveSession → LiveSession
note_event ev s =
    let ids = new_ids ev in
    let thread = or_old ids.0 s.thread_id in
    let turn = or_old ids.1 s.turn_id in
    record s {
      last_codex_event = some (event_name ev);
      last_codex_timestamp = some (timestamp ev);
      thread_id = thread;
      turn_id = turn;
      session_id = session_id_of thread turn s.session_id;
      last_codex_message = message_of (summary_message ev) s.last_codex_message;
    }

-- A turn that starts sets the baseline of its token counts to 0.
unfoldable pub reset_baseline : AgentEvent → LiveSession → LiveSession
reset_baseline ev s =
    if is_turn_started ev
    then record s {
      last_reported_input_tokens = 0;
      last_reported_output_tokens = 0;
      last_reported_total_tokens = 0;
    }
    else s

-- `saturating_sub` is `-`.
unfoldable pub session_usage : TokenUsage → LiveSession → LiveSession
session_usage u s = record s {
  codex_input_tokens =
      u64_saturating_add s.codex_input_tokens (u.input_tokens - s.last_reported_input_tokens);
  codex_output_tokens =
      u64_saturating_add s.codex_output_tokens (u.output_tokens - s.last_reported_output_tokens);
  codex_total_tokens =
      u64_saturating_add s.codex_total_tokens (u.total_tokens - s.last_reported_total_tokens);
  last_reported_input_tokens = u.input_tokens;
  last_reported_output_tokens = u.output_tokens;
  last_reported_total_tokens = u.total_tokens;
}

unfoldable pub totals_usage : TokenUsage → LiveSession → CodexTotals → CodexTotals
totals_usage u s t = record t {
  input_tokens = u64_saturating_add t.input_tokens (u.input_tokens - s.last_reported_input_tokens);
  output_tokens =
      u64_saturating_add t.output_tokens (u.output_tokens - s.last_reported_output_tokens);
  total_tokens = u64_saturating_add t.total_tokens (u.total_tokens - s.last_reported_total_tokens);
}

unfoldable pub count_turn : AgentEvent → LiveSession → LiveSession
count_turn ev s =
    if is_turn_completed ev then record s { turn_count = u32_saturating_add s.turn_count 1 } else s

-- The session and the totals after one event.
unfoldable pub account : AgentEvent → LiveSession → CodexTotals → LiveSession × CodexTotals
account ev s t =
    let base = reset_baseline ev (note_event ev s) in
    elim (usage ev) [
      | none ↦ (count_turn ev base, t)
      | some u ↦ (count_turn ev (session_usage u base), totals_usage u base t)
    ]

-- The handler: an event of an issue that does not run is dropped.
unfoldable pub consume_agent_event : String → AgentEvent → OrchestratorState → OrchestratorState
consume_agent_event issue_id ev state = elim (lookup issue_id state.running) [
  | none ↦ state
  | some r ↦
      let (session, totals) = account ev r.session state.codex_totals in
      record state {
        running = insert issue_id (record r { session = session }) state.running;
        codex_totals = totals;
      }
]
