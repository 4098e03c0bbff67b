-- ===== src/Bridge/Webhook/Handlers/Guards.antt =====
-- What the front of the webhook keeps out: deliveries that GitHub did not sign, and those that came before.
use sinfonia.Base.{
  ℕ, ◌≡◌, ◌⊎◌, inl, inr, refl, String, true, false, Option, none, some, [], ◌∷◌, ◌++◌, member,
  is_empty_str, as_bytes, Bool-cases, if◌then◌else◌,
}
use sinfonia.Bridge.Types.{Error, storage, Result, ok, err}
use sinfonia.Bridge.World.{Environment, World, Tables, sql, note, execute, commit}
use sinfonia.Bridge.Store.{record_delivery}
use sinfonia.Bridge.Webhook.Verify.{Verdict, accept, refuse, verify_signature}
use sinfonia.Bridge.Webhook.Verify.Signature.{Carries, verify_iff}
use sinfonia.Bridge.Webhook.App.{AppState, State, respond}
use sinfonia.Bridge.Webhook.Handlers.{
  Delivery, webhook_inner, identified, is_duplicate, verified, keyed,
}

-- A database that has the delivery answers with an error, whatever else happens, and changes nothing.
record_delivery_known :
    (env : Environment) (id : String) (w : World)
    → member id w.tables.processed_deliveries ≡ true
    → (e : Error) × (record_delivery env id w ≡ (err e, note w (sql "record_delivery")))
unfolding record_delivery execute
record_delivery_known env id w known = answered (env.perform w.calls (sql "record_delivery"))
  where
    statement : ℕ → Tables → Result (Unit {0}) × Tables
    statement now t =
        if member id t.processed_deliveries
        then (err (storage "duplicate"), t)
        else (ok tt, record t { processed_deliveries = id ∷ t.processed_deliveries })

    answered :
        (r : Result (Unit {0}))
        → (e : Error) × (commit (env.now w.calls) "record_delivery" statement w r
            ≡ (err e, note w (sql "record_delivery")))
    answered (ok _) = rw (known) (storage "duplicate", refl)
    answered (err e) = (e, refl)

-- The delivery carries the digest of its body under a configured secret.
abbrev pub Authentic : {Decimal : Type 0} → AppState Decimal → Delivery → Type 0
Authentic app d =
    (key : String) × (app.config.github.webhook_secret ≡ some key)
    × (is_empty_str key ≡ false)
    × Carries (app.hmac_sha256 (as_bytes key) d.body) d.signature

-- Nothing was done but, at most, the attempt to record the delivery.
abbrev pub IsIdle : {Decimal : Type 0} → State Decimal → State Decimal → Type 0
IsIdle s t =
    (t.world.tables ≡ s.world.tables)
    × (t.tickets ≡ s.tickets)
    × ((t.world.calls ≡ s.world.calls)
        ⊎ (t.world.calls ≡ s.world.calls ++ sql "record_delivery" ∷ []))

module _ {Decimal : Type 0} (app : AppState Decimal) where
  verdict_refused :
      (now : ℕ) (d : Delivery) (key : String) (s : State Decimal) (v : Verdict (Unit {0}))
      → verify_signature app.hmac_sha256 d.body d.signature (as_bytes key) ≡ v
      → ¬ Carries (app.hmac_sha256 (as_bytes key) d.body) d.signature
      → verified app now d v s ≡ (respond 401 "error", s)
  verdict_refused now d key s (refuse r) h no_digest = refl
  verdict_refused now d key s (accept u) h no_digest =
      absurd (no_digest ((verify_iff app.hmac_sha256 d.body d.signature (as_bytes key)).0 h))

  keyed_refused :
      (now : ℕ) (d : Delivery) (s : State Decimal) (secret : Option String)
      → app.config.github.webhook_secret ≡ secret
      → ¬ Authentic app d
      → keyed app now d secret s ≡ (respond 401 "error", s)
  keyed_refused now d s none h forged = refl
  keyed_refused now d s (some key) h forged = elim (Bool-cases (is_empty_str key)) [
    | inl e ↦ rw (e) refl
    | inr e ↦ rw (e) (verdict_refused now d key s _ refl (λ c. forged (key, h, e, c)))
  ]

  -- A delivery that does not carry the digest of its body under the configured, non-empty secret is
  -- answered 401, and neither the tables nor the budget change, and no call is made.
  pub unsigned_refused :
      (now : ℕ) (d : Delivery) (s : State Decimal)
      → ¬ Authentic app d
      → webhook_inner app now d s ≡ (respond 401 "error", s)
  unfolding webhook_inner
  unsigned_refused now d s forged = keyed_refused now d s _ refl forged

  identified_known :
      (now : ℕ) (d : Delivery) (id : String) (s : State Decimal)
      → member id s.world.tables.processed_deliveries ≡ true
      → IsIdle s (identified app now d (some id) s).1
  unfolding identified
  identified_known now d id s known =
      let answered = record_delivery_known app.env id s.world known in
      rw (answered.1) (elim (Bool-cases (is_empty_str id)) [
        | inl e ↦ rw (e) (refl, refl, inl refl)
        | inr e ↦ rw (e) (elim (Bool-cases (is_duplicate answered.0)) [
          | inl k ↦ rw (k) (refl, refl, inr refl)
          | inr k ↦ rw (k) (refl, refl, inr refl)
        ])
      ])

  verdict_known :
      (now : ℕ) (d : Delivery) (id : String) (s : State Decimal)
      → d.id ≡ some id
      → member id s.world.tables.processed_deliveries ≡ true
      → (v : Verdict (Unit {0})) → IsIdle s (verified app now d v s).1
  unfolding identified
  verdict_known now d id s named known (refuse r) = (refl, refl, inl refl)
  verdict_known now d id s named known (accept u) = rw (named) (identified_known now d id s known)

  keyed_known :
      (now : ℕ) (d : Delivery) (id : String) (s : State Decimal)
      → d.id ≡ some id
      → member id s.world.tables.processed_deliveries ≡ true
      → (secret : Option String) → IsIdle s (keyed app now d secret s).1
  keyed_known now d id s named known none = (refl, refl, inl refl)
  keyed_known now d id s named known (some key) = elim (Bool-cases (is_empty_str key)) [
    | inl e ↦ rw (e) (refl, refl, inl refl)
    | inr e ↦ rw (e) (verdict_known now d id s named known _)
  ]

  -- A delivery whose id was recorded before does nothing, signed or not and whatever the database
  -- answers: the tables and the budget stay, and the only call is the attempt to record it.
  pub redelivery-IsIdle :
      (now : ℕ) (d : Delivery) (id : String) (s : State Decimal)
      → d.id ≡ some id
      → member id s.world.tables.processed_deliveries ≡ true
      → IsIdle s (webhook_inner app now d s).1
  unfolding webhook_inner
  redelivery-IsIdle now d id s named known =
      keyed_known now d id s named known app.config.github.webhook_secret
