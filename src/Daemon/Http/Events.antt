-- ===== src/Daemon/Http/Events.antt =====
-- crates/sinfonia/src/http/events.rs: the events that the daemon sends to its subscribers. `to_vec` is
-- the printer of serde_json, `to_rfc3339` the text of a time, `hmac_sha256` the digest of a secret and a body.
pub mod Registry
pub mod Recent
pub mod Delivery
use sinfonia.Base.{
  ℕ, zero, suc, ◌+◌, ◌/◌, ◌%◌, ltb, leb, String, Bool, true, false, ◌&&◌, ◌||◌, not, Option, none,
  some, List, [], ◌∷◌, ◌++◌, ℤ, pos, length, filter, map, u64_saturating_mul, as_bytes, is_blank,
  str_eq, starts_with, if◌then◌else◌, ◌==◌,
}
use sinfonia.Json.{Json, text, integer, object, no_fields, field}
use sinfonia.Daemon.Orchestrator.AgentEvents.{AgentEvent, session_completed}

abbrev pub event_type_session_completed : String
event_type_session_completed = "runner.session.completed"

abbrev pub event_version : ℕ
event_version = 1

abbrev pub recent_buffer_capacity : ℕ
recent_buffer_capacity = 200

abbrev pub max_delivery_attempts : ℕ
max_delivery_attempts = 5

pub record Subscriber : Type 0 where
  pub id : String
  pub callback_url : String
  pub registered_at : ℕ

-- `SubscriberRegistry::add` and `remove_by_callback`, on the vector behind the lock
abbrev pub replace : Subscriber → List Subscriber → Option (List Subscriber)
replace s [] = none
replace s (x ∷ rest) = elim (replace s rest) [
  | none ↦ if str_eq x.callback_url s.callback_url then some (s ∷ rest) else none
  | some replaced ↦
      if str_eq x.callback_url s.callback_url then some (s ∷ rest) else some (x ∷ replaced)
]

unfoldable pub add : Subscriber → List Subscriber → List Subscriber
add s subscribers = elim (replace s subscribers) [
  | none ↦ subscribers ++ s ∷ []
  | some replaced ↦ replaced
]

unfoldable pub remove_by_callback : String → List Subscriber → Bool × List Subscriber
remove_by_callback url subscribers =
    let kept = filter (λ (s : Subscriber). not (str_eq s.callback_url url)) subscribers in
    (not (length kept == length subscribers), kept)

-- `RecentBuffer::push`
abbrev pub pop_front : List Json → List Json
pop_front [] = []
pop_front (ev ∷ rest) = rest

unfoldable pub push : Json → List Json → List Json
push ev events =
    (if leb recent_buffer_capacity (length events) then pop_front events else events) ++ ev ∷ []

pub record EmitterConfig : Type 0 where
  pub tenant_id : String
  pub secret : Option String

-- A request that a task is spawned for
pub record Post : Type 0 where
  pub url : String
  pub body : List ℕ
  pub signature : Option (List ℕ)

-- `format!("{b:02x}")`
abbrev pub hex_digit : ℕ → ℕ
hex_digit n = if ltb n 10 then n + 48 else n + 87

abbrev pub hex_of : List ℕ → List ℕ
hex_of [] = []
hex_of (b ∷ bs) = hex_digit (b / 16) ∷ hex_digit (b % 16) ∷ hex_of bs

-- The fields of a session, none for another event
unfoldable pub body_of : (ℕ → String) → String → AgentEvent → Option Json
body_of to_rfc3339 tenant
      (session_completed at thread issue_id issue_identifier state provider model turn_count
        prompt_tokens completion_tokens total duration_ms exit_reason) =
    some (
      object (
        field "type" (text event_type_session_completed) (
          field "version" (integer (pos event_version)) (
            field "tenant_id" (text tenant) (
              field "issue_id" (text issue_id) (
                field "issue_identifier" (text issue_identifier) (
                  field "state" (text state) (
                    field "provider" (text provider) (
                      field "model" (text model) (
                        field "turn_count" (integer (pos turn_count)) (
                          field "prompt_tokens" (integer (pos prompt_tokens)) (
                            field "completion_tokens" (integer (pos completion_tokens)) (
                              field "duration_ms" (integer (pos duration_ms)) (
                                field "exit_reason" (text exit_reason) (
                                  field "occurred_at" (text (to_rfc3339 at))
                                    no_fields)))))))))))))))
body_of to_rfc3339 tenant _ = none

module _ (hmac_sha256 : List ℕ → List ℕ → List ℕ) (to_vec : Json → Option (List ℕ))
    (to_rfc3339 : ℕ → String) where
  unfoldable pub sign : List ℕ → List ℕ → List ℕ
  sign body secret = (115 ∷ 104 ∷ 97 ∷ 50 ∷ 53 ∷ 54 ∷ 61 ∷ []) ++ hex_of (hmac_sha256 secret body)

  abbrev pub signature_of : Option String → List ℕ → Option (List ℕ)
  signature_of none bytes = none
  signature_of (some secret) bytes = some (sign bytes (as_bytes secret))

  abbrev pub posts_of : EmitterConfig → List ℕ → List Subscriber → List Post
  posts_of cfg bytes subscribers =
      map
        (λ (s : Subscriber). record {
          url = s.callback_url;
          body = bytes;
          signature = signature_of cfg.secret bytes;
        })
        subscribers

  abbrev pub emit_body :
      EmitterConfig → List Subscriber → List Json → Json → Option (List ℕ) → List Post × List Json
  emit_body cfg subscribers recent body none = ([], recent)
  emit_body cfg subscribers recent body (some bytes) =
      (posts_of cfg bytes subscribers, push body recent)

  abbrev pub emit_told :
      EmitterConfig → List Subscriber → List Json → Option Json → List Post × List Json
  emit_told cfg subscribers recent none = ([], recent)
  emit_told cfg subscribers recent (some body) = emit_body cfg subscribers recent body (to_vec body)

  -- One round of the task behind `spawn_emitter`
  unfoldable pub emit :
      EmitterConfig → List Subscriber → List Json → AgentEvent → List Post × List Json
  emit cfg subscribers recent ev =
      emit_told cfg subscribers recent (body_of to_rfc3339 cfg.tenant_id ev)

-- A subscriber's answer: the status of a response, or the error of the request
pub data Reply : Type 0 where
  status : ℕ → Reply
  failed : String → Reply

abbrev pub is_success : Reply → Bool
is_success (status code) = leb 200 code && leb code 299
is_success (failed e) = false

-- What a delivery does: an attempt, or a pause of some milliseconds
pub data Step : Type 0 where
  attempted : ℕ → Step
  slept : ℕ → Step

-- The attempts that are left, the next one and the pause behind it; `reply` answers the attempts.
abbrev pub pause : ℕ → ℕ → List Step → List Step
pause attempt backoff_ms later =
    if ltb attempt max_delivery_attempts then slept backoff_ms ∷ later else later

unfoldable pub deliver_from : (ℕ → Reply) → ℕ → ℕ → ℕ → List Step
deliver_from reply zero attempt backoff_ms = []
deliver_from reply (suc left) attempt backoff_ms =
    let later = deliver_from reply left (suc attempt) (u64_saturating_mul backoff_ms 2) in
    attempted attempt ∷ (if is_success (reply attempt) then [] else pause attempt backoff_ms later)

unfoldable pub deliver_with_retry : (ℕ → Reply) → List Step
deliver_with_retry reply = deliver_from reply max_delivery_attempts 1 250

-- `register_subscriber`: the status, and the registry; `id` and `now` are a fresh UUID and the time.
unfoldable pub register_subscriber : String → ℕ → String → List Subscriber → ℕ × List Subscriber
register_subscriber id now callback_url subscribers =
    if is_blank callback_url
    then (400, subscribers)
    else if not (starts_with callback_url "http://" || starts_with callback_url "https://")
    then (400, subscribers)
    else (
      201,
      add (record { id = id; callback_url = callback_url; registered_at = now }) subscribers,
    )
