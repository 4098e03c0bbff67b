-- ===== src/Bridge/Feedback/Budget.antt =====
-- crates/sinfonia-bridge/src/feedback/budget.rs: the token and cost budget of the tickets. The state is
-- the one behind the manager's mutex; `take_pending` is what `flush_ticket` does under the lock.
pub mod Flush
use sinfonia.Base.{
  ℕ, ◌+◌, ◌-◌, ◌*◌, ◌/◌, ◌%◌, ◌^◌, leb, ltb, ◌==◌, String, Bool, true, false, ◌&&◌, ◌||◌, not,
  Option, none, some, List, [], ◌∷◌, Map, lookup, insert, u64_saturating_add, unwrap_or,
  if◌then◌else◌,
}
use sinfonia.Domain.{F64, number, string}
use sinfonia.Bridge.Types.{FeedbackLoopSection, CustomFieldsSection, Result}
use sinfonia.Bridge.World.{
  Environment, World, Action, perform, ◌>>=◌, ◌>>◌, pure, write_custom_field,
}
use sinfonia.Bridge.Feedback.Cost.{Arithmetic, CostTable, compute_cost}

pub record TicketAccumulator (Decimal : Type 0) : Type 0 where
  pub issue_id : String
  pub pending_input_tokens : ℕ
  pub pending_output_tokens : ℕ
  pub pending_cost_usd : Decimal
  pub running_total_tokens : ℕ
  pub running_total_cost_usd : Decimal
  pub last_event_at : Option ℕ
  pub last_flush_at : Option ℕ

pub data CapKind : Type 0 where
  tokens cost : CapKind

pub data SessionApplyOutcome : Type 0 where
  accumulated : SessionApplyOutcome
  cap_hit : CapKind → SessionApplyOutcome

pub record FlushedTotals (Decimal : Type 0) : Type 0 where
  pub tokens_delta : ℕ
  pub cost_delta_usd : Decimal
  pub tokens_total : ℕ
  pub cost_total_usd : Decimal

-- `from_f64` is `Decimal::try_from`, none where that fails; `cost_to_string` prints a cost;
-- `f64_of_u64` is `as f64`, which rounds beyond 2 ^ 53.
module _ {Decimal : Type 0} (num : Arithmetic Decimal) (to_lowercase : String → String)
    (from_f64 : F64 → Option Decimal) (cost_to_string : Decimal → String)
    (f64_of_u64 : ℕ → F64) where
  abbrev pub fresh : String → TicketAccumulator Decimal
  fresh id = record {
    issue_id = id;
    pending_input_tokens = 0;
    pending_output_tokens = 0;
    pending_cost_usd = num.zero_decimal;
    running_total_tokens = 0;
    running_total_cost_usd = num.zero_decimal;
    last_event_at = none;
    last_flush_at = none;
  }

  unfoldable pub add_session :
      ℕ → Decimal → ℕ → ℕ → TicketAccumulator Decimal → TicketAccumulator Decimal
  add_session now session_cost input_tokens output_tokens acc = record acc {
    pending_input_tokens = u64_saturating_add acc.pending_input_tokens input_tokens;
    pending_output_tokens = u64_saturating_add acc.pending_output_tokens output_tokens;
    pending_cost_usd = num.plus acc.pending_cost_usd session_cost;
    running_total_tokens =
        u64_saturating_add acc.running_total_tokens (u64_saturating_add input_tokens output_tokens);
    running_total_cost_usd = num.plus acc.running_total_cost_usd session_cost;
    last_event_at = some now;
  }

  abbrev pub over_tokens : Option ℕ → ℕ → Bool
  over_tokens none total = false
  over_tokens (some max_tokens) total = leb max_tokens total

  abbrev pub over_cost : Bool → Option F64 → Decimal → Bool
  over_cost accepts none total = false
  over_cost accepts (some max_cost) total =
      accepts && num.at_least total (unwrap_or (from_f64 max_cost) num.zero_decimal)

  unfoldable pub cap_of :
      FeedbackLoopSection → Bool → TicketAccumulator Decimal → SessionApplyOutcome
  cap_of feedback accepts_cost_caps_today acc =
      if over_tokens feedback.max_tokens_per_ticket acc.running_total_tokens
      then cap_hit tokens
      else if over_cost accepts_cost_caps_today feedback.max_cost_per_ticket_usd
          acc.running_total_cost_usd
      then cap_hit cost
      else accumulated

  unfoldable pub apply_session :
      FeedbackLoopSection
      → CostTable Decimal
      → Bool
      → ℕ
      → String
      → String
      → String
      → ℕ
      → ℕ
      → Map (TicketAccumulator Decimal)
      → SessionApplyOutcome × Map (TicketAccumulator Decimal)
  apply_session feedback table accepts now issue_id provider model input_tokens output_tokens
        tickets =
      let session_cost =
        compute_cost num to_lowercase table provider model input_tokens output_tokens in
      let acc =
        add_session now session_cost input_tokens output_tokens
          (unwrap_or (lookup issue_id tickets) (fresh issue_id)) in
      (cap_of feedback accepts acc, insert issue_id acc tickets)

  abbrev pub has_pending : TicketAccumulator Decimal → Bool
  has_pending acc = not (
      acc.pending_input_tokens == 0
      && acc.pending_output_tokens == 0
      && num.is_zero acc.pending_cost_usd)

  abbrev pub snapshot_of : TicketAccumulator Decimal → FlushedTotals Decimal
  snapshot_of acc = record {
    tokens_delta = (acc.pending_input_tokens + acc.pending_output_tokens) % 2 ^ 64;
    cost_delta_usd = acc.pending_cost_usd;
    tokens_total = acc.running_total_tokens;
    cost_total_usd = acc.running_total_cost_usd;
  }

  abbrev pub cleared : ℕ → TicketAccumulator Decimal → TicketAccumulator Decimal
  cleared now acc = record acc {
    pending_input_tokens = 0;
    pending_output_tokens = 0;
    pending_cost_usd = num.zero_decimal;
    last_flush_at = some now;
  }

  abbrev pub take_from :
      ℕ
      → String
      → Map (TicketAccumulator Decimal)
      → Option (TicketAccumulator Decimal)
      → Option (FlushedTotals Decimal) × Map (TicketAccumulator Decimal)
  take_from now issue_id tickets none = (none, tickets)
  take_from now issue_id tickets (some acc) =
      if has_pending acc
      then (some (snapshot_of acc), insert issue_id (cleared now acc) tickets)
      else (none, tickets)

  unfoldable pub take_pending :
      ℕ
      → String
      → Map (TicketAccumulator Decimal)
      → Option (FlushedTotals Decimal) × Map (TicketAccumulator Decimal)
  take_pending now issue_id tickets = take_from now issue_id tickets (lookup issue_id tickets)

  -- Behind the lock: the totals are written.
  unfoldable pub write_totals :
      Environment
      → CustomFieldsSection
      → String
      → Option (FlushedTotals Decimal)
      → Action (Option (FlushedTotals Decimal))
  write_totals env custom_fields issue_id none = pure none
  write_totals env custom_fields issue_id (some snap) = do
    perform env (
        write_custom_field issue_id custom_fields.tokens_consumed
          (number (f64_of_u64 snap.tokens_total)))
    perform env (
        write_custom_field issue_id custom_fields.cost_consumed_usd
          (string (cost_to_string snap.cost_total_usd)))
    pure (some snap)

  unfoldable pub flush_ticket :
      Environment
      → CustomFieldsSection
      → ℕ
      → String
      → Map (TicketAccumulator Decimal)
      → World
      → Result (Option (FlushedTotals Decimal)) × Map (TicketAccumulator Decimal) × World
  flush_ticket env custom_fields now issue_id tickets w =
      let (taken, kept) = take_pending now issue_id tickets in
      let (r, w') = write_totals env custom_fields issue_id taken w in (r, kept, w')

  -- The tickets that the reconciler flushes: something is pending, and the last session is 30 s old.
  abbrev pub is_idle : ℕ → TicketAccumulator Decimal → Bool
  is_idle now acc = elim acc.last_event_at [ none ↦ false | some t ↦ leb 30 ((now - t) / 1000) ]

  unfoldable pub flush_candidates : ℕ → Map (TicketAccumulator Decimal) → List String
  flush_candidates now [] = []
  flush_candidates now ((id, acc) ∷ rest) =
      let later = flush_candidates now rest in
      if has_pending acc && is_idle now acc then id ∷ later else later
