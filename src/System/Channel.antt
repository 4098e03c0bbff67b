-- ===== src/System/Channel.antt =====
-- From a session that ends in the daemon (crates/sinfonia/src/http/events.rs) to the budget of its ticket
-- in the bridge (crates/sinfonia-bridge/src/events.rs).
use sinfonia.Base.{
  ℕ, ◌<◌, ◌≤◌, ◌≡◌, String, false, Option, some, List, All, u32_max, u64_max, as_bytes, unwrap_or,
  is_empty_str,
}
use sinfonia.Json.{Json, null}
use sinfonia.Daemon.Orchestrator.AgentEvents.{AgentEvent, session_completed}
use sinfonia.Daemon.Http.Events as Sender
use sinfonia.Daemon.Http.Events.{EmitterConfig, Post, body_of, emit_told, sign, posts_of}
use sinfonia.Bridge.Webhook.App.{AppState}
use sinfonia.Bridge.Events.Body.{SessionCompletedEvent, event_type_session_completed}

-- A session that ended, as both sides know it
pub record Session : Type 0 where
  pub at : ℕ
  pub thread : String
  pub issue_id : String
  pub issue_identifier : String
  pub state : String
  pub provider : String
  pub model : String
  pub turn_count : ℕ
  pub prompt_tokens : ℕ
  pub completion_tokens : ℕ
  pub total_tokens : ℕ
  pub duration_ms : ℕ
  pub exit_reason : String

abbrev pub sent : Session → AgentEvent
sent e =
    session_completed e.at e.thread e.issue_id e.issue_identifier e.state e.provider e.model
      e.turn_count e.prompt_tokens e.completion_tokens e.total_tokens e.duration_ms e.exit_reason

abbrev pub received : (ℕ → String) → String → Session → SessionCompletedEvent
received to_rfc3339 tenant e = record {
  event_type = event_type_session_completed;
  version = 1;
  tenant_id = tenant;
  issue_id = e.issue_id;
  issue_identifier = e.issue_identifier;
  state = e.state;
  provider = e.provider;
  model = e.model;
  turn_count = e.turn_count;
  prompt_tokens = e.prompt_tokens;
  completion_tokens = e.completion_tokens;
  duration_ms = e.duration_ms;
  exit_reason = e.exit_reason;
  occurred_at = to_rfc3339 e.at;
}

-- The numbers have the width of their fields.
pub record Fits (e : Session) : Type 0 where
  pub turns : e.turn_count ≤ u32_max
  pub prompt : e.prompt_tokens ≤ u64_max
  pub completion : e.completion_tokens ≤ u64_max
  pub duration : e.duration_ms ≤ u64_max

module _ (to_rfc3339 : ℕ → String) (tenant : String) where
  -- The value that the daemon writes
  abbrev pub wire : Session → Json
  wire e = unwrap_or (body_of to_rfc3339 tenant (sent e)) null

module _ {Decimal : Type 0} (app : AppState Decimal) (to_vec : Json → Option (List ℕ))
    (to_rfc3339 : ℕ → String) (cfg : EmitterConfig) where
  -- Both sides have the same secret, and serde_json reads the bytes that it prints of this value.
  pub record Joined (e : Session) (key : String) (bytes : List ℕ) : Type 0 where
    pub sender : cfg.secret ≡ some key
    pub receiver : app.config.telemetry.sinfonia_events_secret ≡ some key
    pub full : is_empty_str key ≡ false
    pub printed : to_vec (wire to_rfc3339 cfg.tenant_id e) ≡ some bytes
    pub reads : app.parse_json bytes ≡ some (wire to_rfc3339 cfg.tenant_id e)
    pub digest : All (λ b. b < 256) (app.hmac_sha256 (as_bytes key) bytes)

  -- The request for one subscriber
  abbrev post_to : String → List ℕ → String → Post
  post_to key bytes url = record {
    url = url;
    body = bytes;
    signature = some (sign app.hmac_sha256 to_vec to_rfc3339 bytes (as_bytes key));
  }
