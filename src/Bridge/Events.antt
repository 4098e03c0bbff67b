-- ===== src/Bridge/Events.antt =====
-- crates/sinfonia-bridge/src/events.rs: the events that the daemon sends. The header is as `to_str` reads
-- it; `now` is the time in milliseconds.
pub mod Body
pub mod Front
pub mod Counting
use sinfonia.Base.{
  ℕ, String, Bool, true, false, Option, none, some, List, [], ◌∷◌, as_bytes, is_empty_str, str_eq,
  unwrap_or, if◌then◌else◌,
}
use sinfonia.Json.{Json, get, as_str}
use sinfonia.Bridge.Types.{Result}
use sinfonia.Bridge.World.{perform, transition_issue}
use sinfonia.Bridge.Feedback.Budget.{
  SessionApplyOutcome, accumulated, cap_hit, apply_session, flush_ticket,
}
use sinfonia.Bridge.Webhook.App.{AppState, State, Response, respond, Handler}
use sinfonia.Bridge.Webhook.Verify.{Verdict, accept, refuse, verify_signature}
use sinfonia.Bridge.Events.Body.{SessionCompletedEvent, event_type_session_completed, parse_event}

module _ {Decimal : Type 0} (app : AppState Decimal) where
  open app use {
    config, cost_table, accepts_cost_caps_today, env, num, from_f64, cost_to_string, f64_of_u64,
    to_lowercase, hmac_sha256, parse_json,
  }

  -- A cap that is reached flushes the ticket and moves it; what fails of that is logged.
  unfoldable pub stop_ticket : ℕ → String → Handler Decimal
  stop_ticket now issue_id s =
      let (flushed, tickets, w) =
        flush_ticket num to_lowercase from_f64 cost_to_string f64_of_u64 env config.custom_fields
          now issue_id s.tickets s.world in
      let (moved, w') =
        perform env (transition_issue issue_id config.feedback_loop.budget_exceeded_state) w in
      (respond 202 "cap_hit", record { world = w'; tickets = tickets })

  abbrev pub after_session : ℕ → String → SessionApplyOutcome → Handler Decimal
  after_session now issue_id accumulated s = (respond 202 "accumulated", s)
  after_session now issue_id (cap_hit kind) s = stop_ticket now issue_id s

  unfoldable pub count_session : ℕ → SessionCompletedEvent → Handler Decimal
  count_session now e s =
      let (outcome, tickets) =
        apply_session num to_lowercase from_f64 cost_to_string f64_of_u64 config.feedback_loop
          cost_table accepts_cost_caps_today now e.issue_id e.provider e.model e.prompt_tokens
          e.completion_tokens s.tickets in
      after_session now e.issue_id outcome (record s { tickets = tickets })

  abbrev pub counted : ℕ → Option SessionCompletedEvent → Handler Decimal
  counted now none s = (respond 400 "error", s)
  counted now (some e) s = count_session now e s

  -- An event of another type is ignored.
  abbrev pub opened : ℕ → Option Json → Handler Decimal
  opened now none s = (respond 400 "error", s)
  opened now (some envelope) s =
      if str_eq (unwrap_or (as_str (get (some envelope) "type")) "") event_type_session_completed
      then counted now (parse_event envelope) s
      else (respond 200 "ignored", s)

  abbrev pub signed : ℕ → List ℕ → Verdict (Unit {0}) → Handler Decimal
  signed now body (refuse e) s = (respond 401 "error", s)
  signed now body (accept _) s = opened now (parse_json body) s

  abbrev pub secured : ℕ → Option (List ℕ) → List ℕ → Option String → Handler Decimal
  secured now sig_header body none s = (respond 401 "error", s)
  secured now sig_header body (some secret) s =
      if is_empty_str secret
      then (respond 401 "error", s)
      else signed now body (verify_signature hmac_sha256 body sig_header (as_bytes secret)) s

  unfoldable pub sinfonia_events_inner : ℕ → Option (List ℕ) → List ℕ → Handler Decimal
  sinfonia_events_inner now sig_header body s =
      secured now sig_header body config.telemetry.sinfonia_events_secret s
