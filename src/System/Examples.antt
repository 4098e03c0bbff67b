-- ===== src/System/Examples.antt =====
-- A session of 700 tokens that is sent to two subscribers and counted.
use sinfonia.Base.{ℕ, some, List, [], ◌∷◌}
use sinfonia.Daemon.Http.Events.{Subscriber, EmitterConfig}
use sinfonia.Bridge.Webhook.App.{AppState}
use sinfonia.Bridge.Webhook.Examples.{app}
use sinfonia.System.Channel.{Session, wire}

abbrev ended : Session
ended = record {
  at = 5;
  thread = "thread";
  issue_id = "T";
  issue_identifier = "ENG-1";
  state = "In Progress";
  provider = "claude";
  model = "opus";
  turn_count = 3;
  prompt_tokens = 600;
  completion_tokens = 100;
  total_tokens = 700;
  duration_ms = 9000;
  exit_reason = "completed";
}

abbrev sender : EmitterConfig
sender = record { tenant_id = "acme"; secret = some "secret" }

abbrev subscribers : List Subscriber
subscribers =
    record { id = "a"; callback_url = "http://a"; registered_at = 1 }
    ∷ record { id = "b"; callback_url = "http://b"; registered_at = 2 }
    ∷ []

abbrev receiver : AppState ℕ
receiver = record app { parse_json = λ bytes. some (wire (λ at. "now") "acme" ended) }
