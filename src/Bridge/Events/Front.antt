-- ===== src/Bridge/Events/Front.antt =====
-- What the front of the event channel keeps out, and what it lets through.
use sinfonia.Base.{
  ℕ, ◌≡◌, refl, String, false, Option, none, some, List, as_bytes, is_empty_str, Bool-cases, inl,
  inr,
}
use sinfonia.Json.{Json, get, as_str}
use sinfonia.Bridge.Webhook.Verify.{Verdict, accept, refuse, verify_signature}
use sinfonia.Bridge.Webhook.Verify.Signature.{Carries, verify_iff}
use sinfonia.Bridge.Webhook.App.{AppState, State, respond}
use sinfonia.Bridge.Events.Body.{SessionCompletedEvent, event_type_session_completed, parse_event}
use sinfonia.Bridge.Events.{sinfonia_events_inner, count_session, secured, signed}

-- The body carries its digest under the configured, non-empty secret.
abbrev pub Authentic : {Decimal : Type 0} → AppState Decimal → Option (List ℕ) → List ℕ → Type 0
Authentic app sig_header body =
    (key : String) × (app.config.telemetry.sinfonia_events_secret ≡ some key)
    × (is_empty_str key ≡ false)
    × Carries (app.hmac_sha256 (as_bytes key) body) sig_header

-- The body is JSON that tells of a session.
abbrev pub Tells : {Decimal : Type 0} → AppState Decimal → List ℕ → SessionCompletedEvent → Type 0
Tells app body e =
    (v : Json) × (app.parse_json body ≡ some v)
    × (as_str (get (some v) "type") ≡ some event_type_session_completed)
    × (parse_event v ≡ some e)

module _ {Decimal : Type 0} (app : AppState Decimal) where
  verdict_refused :
      (now : ℕ) (sig_header : Option (List ℕ)) (body : List ℕ) (key : String) (s : State Decimal)
      (v : Verdict (Unit {0}))
      → verify_signature app.hmac_sha256 body sig_header (as_bytes key) ≡ v
      → ¬ Carries (app.hmac_sha256 (as_bytes key) body) sig_header
      → signed app now body v s ≡ (respond 401 "error", s)
  verdict_refused now sig_header body key s (refuse r) h forged = refl
  verdict_refused now sig_header body key s (accept u) h forged =
      absurd (forged ((verify_iff app.hmac_sha256 body sig_header (as_bytes key)).0 h))

  secured_refused :
      (now : ℕ) (sig_header : Option (List ℕ)) (body : List ℕ) (s : State Decimal)
      (secret : Option String)
      → app.config.telemetry.sinfonia_events_secret ≡ secret
      → ¬ Authentic app sig_header body
      → secured app now sig_header body secret s ≡ (respond 401 "error", s)
  secured_refused now sig_header body s none h forged = refl
  secured_refused now sig_header body s (some key) h forged = elim (Bool-cases (is_empty_str key)) [
    | inl e ↦ rw (e) refl
    | inr e ↦ rw (e) (verdict_refused now sig_header body key s _ refl (λ c. forged (key, h, e, c)))
  ]

  -- An event whose header does not carry the digest of its body under the configured, non-empty secret
  -- is answered 401; no budget changes, and no call is made.
  pub forged_event_refused :
      (now : ℕ) (sig_header : Option (List ℕ)) (body : List ℕ) (s : State Decimal)
      → ¬ Authentic app sig_header body
      → sinfonia_events_inner app now sig_header body s ≡ (respond 401 "error", s)
  unfolding sinfonia_events_inner
  forged_event_refused now sig_header body s forged =
      secured_refused now sig_header body s _ refl forged

  -- An authentic event that tells of a session reaches the budget.
  pub counted_if_genuine :
      (now : ℕ) (sig_header : Option (List ℕ)) (body : List ℕ) (e : SessionCompletedEvent)
      (s : State Decimal)
      → Authentic app sig_header body
      → Tells app body e
      → sinfonia_events_inner app now sig_header body s ≡ count_session app now e s
  unfolding sinfonia_events_inner
  counted_if_genuine now sig_header body e s (key, named, full, carries) (v, parsed, typed, told) =
      rw
        (
          named,
          full,
          (verify_iff app.hmac_sha256 body sig_header (as_bytes key)).1 carries,
          parsed,
          typed,
          told,
        )
        refl
