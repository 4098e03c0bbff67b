-- ===== src/Bridge/Webhook/Examples.antt =====
-- The guards of the webhook at a delivery with no signature, and at one that came before.
use sinfonia.Base.{true, ◌≡◌, false, refl, none, some, [], ◌∷◌, ℕ, pos, member}
use sinfonia.Domain.{finite}
use sinfonia.Bridge.Examples.{cents, prices, env, cfg, labels, render, no_digest, short_hmac, world}
use sinfonia.Bridge.Webhook.Verify.Signature.{Carries}
use sinfonia.Json.{Json, text, integer, object, field, no_fields}
use sinfonia.Bridge.Webhook.Handlers.Linking.{Linked, handle_pull_request-Linked}
use sinfonia.Base.{inl}
use sinfonia.Bridge.Types.{ok}
use sinfonia.Bridge.Webhook.App.{AppState, State, respond}
use sinfonia.Bridge.Webhook.Handlers.{Delivery, webhook_inner, handle_pull_request}
use sinfonia.Bridge.Webhook.Handlers.Guards.{IsIdle, unsigned_refused, redelivery-IsIdle}

not_signed : ¬ Carries (171 ∷ 0 ∷ 15 ∷ []) (some (115 ∷ []))
not_signed c = absurd (cc c.1)

abbrev delivery : Delivery
delivery = record {
  signature = some (115 ∷ []);
  id = some "d-1";
  event = some "ping";
  body = 1 ∷ [];
}

-- The delivery was recorded before.
abbrev pub known_state : State ℕ
known_state = record {
  world = record world {
    tables = record { processed_deliveries = "d-1" ∷ []; pr_ticket_map = []; landing_queue = [] };
  };
  tickets = [];
}

abbrev pub app : AppState ℕ
app = record {
  config = cfg;
  labels = labels;
  cost_table = prices;
  accepts_cost_caps_today = true;
  env = env;
  num = cents;
  from_f64 = λ f. none;
  cost_to_string = λ c. "";
  f64_of_u64 = λ n. finite false n (pos 0);
  to_lowercase = λ s. s;
  render = render;
  fetch_digest = no_digest;
  hmac_sha256 = short_hmac;
  parse_json = λ b. none;
}

unsigned_refused_example :
    webhook_inner app 5 delivery known_state ≡ (respond 401 "error", known_state)
unsigned_refused_example = unsigned_refused app 5 delivery known_state (λ a. not_signed a.3)

redelivery-IsIdle_example : IsIdle known_state (webhook_inner app 5 delivery known_state).1
unfolding member
redelivery-IsIdle_example = redelivery-IsIdle app 5 delivery "d-1" known_state refl refl

abbrev opened : Json
opened = object (
    field "action" (text "opened") (
      field "number" (integer (pos 7))
        (field "repository" (object (field "full_name" (text "o/r") no_fields)) no_fields)))

handle_pull_request-Linked_example :
    Linked app "o/r" 7 "T-1" known_state (ok tt) (handle_pull_request app 5 opened known_state)
handle_pull_request-Linked_example =
    handle_pull_request-Linked app 5 opened 7 "T-1" known_state (inl refl) refl refl
