-- ===== src/Bridge/Webhook/Handlers.antt =====
-- crates/sinfonia-bridge/src/webhook/handlers.rs: what a delivery does. The headers are as `to_str`
-- reads them; `now` is the time in milliseconds of a flush.
pub mod Guards
pub mod Linking
use sinfonia.Base.{
  or_else, ℕ, ◌==◌, String, Bool, true, false, ◌&&◌, ◌||◌, not, Option, none, some, List, [], ◌∷◌,
  Map, any, concat, as_bytes, is_empty_str, str_eq, eq_ignore_ascii_case, unwrap_or, if◌then◌else◌,
}
use sinfonia.Domain.{F64}
use sinfonia.Bridge.Types.{Error, storage, Result, ok, err, BridgeConfig}
use sinfonia.Bridge.World.{Environment, World, Action}
use sinfonia.Bridge.Store.{record_delivery, upsert_pr_ticket, lookup_pr_ticket}
use sinfonia.Bridge.Labels.{LabelManager}
use sinfonia.Bridge.Merge
use sinfonia.Bridge.Feedback.Budget.{flush_ticket}
use sinfonia.Bridge.Webhook.App.{AppState, State, Response, respond, Handler}
use sinfonia.Bridge.Feedback.Evaluate.{
  CiOutcome, no_mapped_pr, pending, green, red, capped, evaluate_ci,
}
use sinfonia.Bridge.Webhook.Verify.{Verdict, accept, refuse, verify_signature}
use sinfonia.Json.{Json, get, as_str, as_u64, as_bool}
use sinfonia.Bridge.Webhook.Payload.{extract_targets}

-- A request: the headers that are read, and the body
pub record Delivery : Type 0 where
  pub signature : Option (List ℕ)
  pub id : Option String
  pub event : Option String
  pub body : List ℕ

unfoldable pub is_action : CiOutcome → Bool
is_action no_mapped_pr = false
is_action pending = false
is_action green = true
is_action (red category next max state) = true
is_action (capped stayed_at max) = true

abbrev pub repo_of : Json → String
repo_of payload = unwrap_or (as_str (get (get (some payload) "repository") "full_name")) ""

abbrev pub action_of : Json → String
action_of payload = unwrap_or (as_str (get (some payload) "action")) ""

-- The number of a `pull_request` event
abbrev pub number_of : Json → Option ℕ
number_of payload =
    or_else (as_u64 (get (some payload) "number"))
      (as_u64 (get (get (some payload) "pull_request") "number"))

-- The body of the pull request, a line break, and its title
abbrev pub combined : Json → String
combined payload = concat (
    unwrap_or (as_str (get (get (some payload) "pull_request") "body")) ""
    ∷ "\n"
    ∷ unwrap_or (as_str (get (get (some payload) "pull_request") "title")) ""
    ∷ [])

abbrev pub is_merged : Json → Bool
is_merged payload = unwrap_or (as_bool (get (get (some payload) "pull_request") "merged")) false

abbrev pub upserted : Result (Unit {0}) → Response
upserted (ok _) = respond 202 "queued"
upserted (err e) = respond 500 "error"

abbrev pub evaluated : Result (List CiOutcome) → Response
evaluated (err e) = respond 500 "error"
evaluated (ok outcomes) =
    let any_action = any is_action outcomes in
    record {
      code = if any_action then 202 else 200;
      word = if any_action then "queued" else "no-op";
      outcomes = outcomes;
    }

abbrev pub is_duplicate : Error → Bool
is_duplicate (storage s) = str_eq s "duplicate"
is_duplicate _ = false

module _ {Decimal : Type 0} (app : AppState Decimal) where
  open app use {
    config, labels, env, num, from_f64, cost_to_string, f64_of_u64, to_lowercase, render,
    fetch_digest, hmac_sha256, parse_json,
  }

  -- An answer by the result of a call that changes the world alone
  abbrev pub answer : {A : Type 0} → Action A → (Result A → Response) → Handler Decimal
  answer m f s = let (r, w) = m s.world in (f r, record s { world = w })

  abbrev pub map_ticket : String → ℕ → Option String → Handler Decimal
  map_ticket repo pr_number none s = (respond 200 "ignored", s)
  map_ticket repo pr_number (some ticket_id) s =
      answer (upsert_pr_ticket env repo pr_number ticket_id) upserted s

  unfoldable pub link_pull_request : Json → ℕ → Handler Decimal
  link_pull_request payload pr_number s =
      let action = action_of payload in
      if not (str_eq action "opened")
        && not (str_eq action "synchronize")
        && not (str_eq action "reopened")
      then (respond 200 "ignored", s)
      else map_ticket (repo_of payload) pr_number
          (config.feedback_loop.pr_link_pattern (combined payload)) s

  -- A merged pull request with a ticket flushes its totals; a lookup that fails finds none.
  abbrev pub after_lookup : ℕ → Json → ℕ → Result (Option String) → Handler Decimal
  after_lookup now payload pr_number (err e) s = link_pull_request payload pr_number s
  after_lookup now payload pr_number (ok none) s = link_pull_request payload pr_number s
  after_lookup now payload pr_number (ok (some ticket_id)) s =
      let (r, tickets, w) =
        flush_ticket num to_lowercase from_f64 cost_to_string f64_of_u64 env config.custom_fields
          now ticket_id s.tickets s.world in
      (respond 202 "merged", record { world = w; tickets = tickets })

  unfoldable pub pull_request_of : ℕ → Json → Option ℕ → Handler Decimal
  pull_request_of now payload none s = (respond 200 "ignored", s)
  pull_request_of now payload (some pr_number) s =
      let (found, w) = lookup_pr_ticket env (repo_of payload) pr_number s.world in
      if str_eq (action_of payload) "closed" && is_merged payload
      then after_lookup now payload pr_number found (record s { world = w })
      else link_pull_request payload pr_number s

  unfoldable pub handle_pull_request : ℕ → Json → Handler Decimal
  handle_pull_request now payload = pull_request_of now payload (number_of payload)

  -- An error of the coordinator is logged.
  abbrev pub approve : String → Option ℕ → Handler Decimal
  approve repo none s = (respond 200 "ignored", s)
  approve repo (some pr_number) s =
      if not config.feedback_loop.merge_coordinator.enabled
      then (respond 200 "ignored", s)
      else answer (Merge.enqueue_on_approval env config labels repo pr_number)
          (λ r. respond 202 "queued") s

  unfoldable pub handle_pull_request_review : Json → Handler Decimal
  handle_pull_request_review payload s =
      if not (str_eq (action_of payload) "submitted")
        || not (
            eq_ignore_ascii_case (unwrap_or (as_str (get (get (some payload) "review") "state")) "")
              "approved")
      then (respond 200 "ignored", s)
      else approve (repo_of payload) (as_u64 (get (get (some payload) "pull_request") "number")) s

  unfoldable pub dispatch_ci_event : String → Json → Handler Decimal
  dispatch_ci_event event payload =
      answer (evaluate_ci env config labels render fetch_digest (extract_targets event payload))
        evaluated

  unfoldable pub handle_ci : String → Json → Handler Decimal
  handle_ci event payload s =
      if not (str_eq (action_of payload) "completed")
      then (respond 200 "ignored", s)
      else dispatch_ci_event event payload s

  unfoldable pub dispatch : ℕ → String → Json → Handler Decimal
  dispatch now event payload s =
      if str_eq event "pull_request"
      then handle_pull_request now payload s
      else if str_eq event "pull_request_review"
      then handle_pull_request_review payload s
      else if str_eq event "check_suite" || str_eq event "workflow_run"
      then handle_ci event payload s
      else if str_eq event "ping"
      then (respond 200 "pong", s)
      else (respond 200 "ignored", s)

  abbrev pub parsed : ℕ → String → Option Json → Handler Decimal
  parsed now event none s = (respond 400 "error", s)
  parsed now event (some payload) s = dispatch now event payload s

  abbrev pub recorded : ℕ → Delivery → Result (Unit {0}) → Handler Decimal
  recorded now d (ok _) s = parsed now (unwrap_or d.event "") (parse_json d.body) s
  recorded now d (err e) s =
      if is_duplicate e then (respond 200 "duplicate", s) else (respond 500 "error", s)

  unfoldable pub identified : ℕ → Delivery → Option String → Handler Decimal
  identified now d none s = (respond 400 "error", s)
  identified now d (some id) s =
      let (r, w) = record_delivery env id s.world in
      if is_empty_str id
      then (respond 400 "error", s)
      else recorded now d r (record s { world = w })

  abbrev pub verified : ℕ → Delivery → Verdict (Unit {0}) → Handler Decimal
  verified now d (refuse e) s = (respond 401 "error", s)
  verified now d (accept _) s = identified now d d.id s

  abbrev pub keyed : ℕ → Delivery → Option String → Handler Decimal
  keyed now d none s = (respond 401 "error", s)
  keyed now d (some secret) s =
      if is_empty_str secret
      then (respond 401 "error", s)
      else verified now d (verify_signature hmac_sha256 d.body d.signature (as_bytes secret)) s

  unfoldable pub webhook_inner : ℕ → Delivery → Handler Decimal
  webhook_inner now d s = keyed now d config.github.webhook_secret s
