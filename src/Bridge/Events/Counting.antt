-- ===== src/Bridge/Events/Counting.antt =====
-- A session that is told is counted, and stops its ticket at the cap.
use sinfonia.Base.{
  ℕ, ◌+◌, ◌<◌, ◌≤◌, ◌≡◌, String, Bool, true, false, ◌||◌, Option, none, some, List, [], ◌∷◌, ◌++◌,
  Map, All, lookup, unwrap_or, str_eq, ◌⊎◌,
}
use sinfonia.Domain.{F64, CustomFieldValue, number, string}
use sinfonia.Bridge.Types.{Error, ok, err}
use sinfonia.Bridge.World.{Call, World, write_custom_field, transition_issue, perform}
use sinfonia.Bridge.Feedback.Budget.{
  TicketAccumulator, FlushedTotals, tokens, cost, fresh, over_tokens, over_cost,
}
use sinfonia.Bridge.Webhook.App.{AppState, State, Response, respond}
use sinfonia.Bridge.Events.Body.{SessionCompletedEvent}

module _ {Decimal : Type 0} (app : AppState Decimal) where
  open app use {config, env, num, from_f64, cost_to_string, f64_of_u64, to_lowercase}

  abbrev pub account : String → State Decimal → TicketAccumulator Decimal
  account id s =
      unwrap_or (lookup id s.tickets) (fresh num to_lowercase from_f64 cost_to_string f64_of_u64 id)

  abbrev pub total : String → State Decimal → ℕ
  total id s = (account id s).running_total_tokens

  -- One of the caps is reached.
  abbrev pub is_capped : TicketAccumulator Decimal → Bool
  is_capped acc =
      over_tokens num to_lowercase from_f64 cost_to_string f64_of_u64
        config.feedback_loop.max_tokens_per_ticket acc.running_total_tokens
      || over_cost num to_lowercase from_f64 cost_to_string f64_of_u64 app.accepts_cost_caps_today
          config.feedback_loop.max_cost_per_ticket_usd acc.running_total_cost_usd

  -- One of the caps is reached: the tokens, or, where a cost cap is in force, the cost.
  abbrev pub Capped : TicketAccumulator Decimal → Type 0
  Capped acc =
      ((max_tokens : ℕ) × (config.feedback_loop.max_tokens_per_ticket ≡ some max_tokens)
        × (max_tokens ≤ acc.running_total_tokens))
      ⊎ ((max_cost : F64) × (config.feedback_loop.max_cost_per_ticket_usd ≡ some max_cost)
          × (app.accepts_cost_caps_today ≡ true)
          × (num.at_least acc.running_total_cost_usd
                (unwrap_or (from_f64 max_cost) num.zero_decimal)
              ≡ true))

  abbrev pub IsWriteOf : String → Call → Type 0
  IsWriteOf id c = (key : String) × (v : CustomFieldValue) × (c ≡ write_custom_field id key v)

  -- The two writes of a flush, the second where the tracker takes the first
  abbrev pub Given :
      String
      → String
      → String
      → CustomFieldValue
      → CustomFieldValue
      → List Call
      → List Call
      → Type 0
  Given id k l x y calls writes =
      (env.perform calls (write_custom_field id k x) ≡ ok tt
        → writes ≡ write_custom_field id k x ∷ write_custom_field id l y ∷ [])
      × ((e : Error)
          → env.perform calls (write_custom_field id k x) ≡ err e
          → writes ≡ write_custom_field id k x ∷ [])

  -- They carry the totals of the ticket.
  abbrev pub Flushes : String → ℕ → Decimal → List Call → List Call → Type 0
  Flushes id sum spent =
      Given id config.custom_fields.tokens_consumed config.custom_fields.cost_consumed_usd
        (number (f64_of_u64 sum)) (string (cost_to_string spent))

  -- The ticket was flushed, with its totals where something was pending, and then moved, whatever the
  -- tracker answered.
  abbrev pub Stopped : Type 0 → String → World → Response × State Decimal → Type 0
  Stopped Pending id w (r, t) =
      (r ≡ respond 202 "cap_hit")
      × ((account id t).pending_input_tokens ≡ 0)
      × ((account id t).pending_output_tokens ≡ 0)
      × (t.world.tables ≡ w.tables)
      × (writes : List Call) × All (IsWriteOf id) writes
      × (t.world.calls
          ≡ (w.calls ++ writes)
            ++ transition_issue id config.feedback_loop.budget_exceeded_state ∷ [])
      × (Pending
          → Flushes id (account id t).running_total_tokens (account id t).running_total_cost_usd
              w.calls writes)

  -- The writes, which keep the tables and are all that is called
  abbrev Wrote : (List Call → Type 0) → String → World → World → Type 0
  Wrote P id w w' =
      (w'.tables ≡ w.tables)
      × (writes : List Call) × All (IsWriteOf id) writes
      × (w'.calls ≡ w.calls ++ writes)
      × P writes

  -- What a flush writes
  abbrev WritesOf : String → Option (FlushedTotals Decimal) → List Call → List Call → Type 0
  WritesOf id none calls writes = Unit
  WritesOf id (some snap) calls writes =
      Flushes id snap.tokens_total snap.cost_total_usd calls writes

  -- What a flush leaves of the accounts
  record Kept (id : String) (acc : TicketAccumulator Decimal)
      (before after : Map (TicketAccumulator Decimal)) : Type 0 where
    pub left : TicketAccumulator Decimal
    pub found : lookup id after ≡ some left
    pub input : left.pending_input_tokens ≡ 0
    pub output : left.pending_output_tokens ≡ 0
    pub tokens : left.running_total_tokens ≡ acc.running_total_tokens
    pub cost : left.running_total_cost_usd ≡ acc.running_total_cost_usd
    pub others : (j : String) → str_eq id j ≡ false → lookup j after ≡ lookup j before

  -- What stopping a ticket leaves
  record Ended (id : String) (acc : TicketAccumulator Decimal) (s : State Decimal)
      (r : Response × State Decimal) : Type 0 where
    pub stopped : Stopped (0 < acc.pending_input_tokens + acc.pending_output_tokens) id s.world r
    pub tokens : (account id r.1).running_total_tokens ≡ acc.running_total_tokens
    pub cost : (account id r.1).running_total_cost_usd ≡ acc.running_total_cost_usd
    pub others : (j : String) → str_eq id j ≡ false → lookup j r.1.tickets ≡ lookup j s.tickets

  -- What a session does
  pub record Counted (e : SessionCompletedEvent) (s : State Decimal) (r : Response × State Decimal)
      : Type 0 where
    pub added : total e.issue_id r.1 ≡ total e.issue_id s + (e.prompt_tokens + e.completion_tokens)
    pub others :
        (j : String) → str_eq e.issue_id j ≡ false → lookup j r.1.tickets ≡ lookup j s.tickets
    pub stopped :
        Capped (account e.issue_id r.1)
        → Stopped (0 < e.prompt_tokens + e.completion_tokens) e.issue_id s.world r
    pub quiet :
        (Capped (account e.issue_id r.1) → ⊥)
        → (r.0 ≡ respond 202 "accumulated") × (r.1.world ≡ s.world)
