-- ===== src/Daemon/Orchestrator/Dispatch.antt =====
-- crates/sinfonia/src/orchestrator/dispatch.rs: eligibility, slots and the order of dispatch.
-- `str::to_lowercase` is a parameter; `sort_by` is the stable sort of Base/Order.
pub mod Eligibility
pub mod Order
pub mod Slots
use Prim.Native.Nat.{Ordering, compare as compare_nat}
use Prim.Native.String.{compare as compare_str}
use sinfonia.Base.{
  ℕ, zero, suc, ◌==◌, leb, String, Bool, true, false, ◌&&◌, ◌||◌, not, Option, none, some, List, [],
  ◌∷◌, any, all, filter, length, map, is_empty, Map, lookup, values, ℤ, pos, negsuc, compare_int,
  str_eq, is_empty_str, eq_ignore_ascii_case, unwrap_or, if◌then◌else◌,
}
use sinfonia.Base.Order.{then_by, compare_option, sort_by}
use sinfonia.Domain.{Issue, BlockerRef, OrchestratorState, RunningEntry}
use sinfonia.Daemon.Config.{ServiceConfig, permits}

-- `states.iter().any(|s| s.to_lowercase() == state_l)`
abbrev pub in_states : (String → String) → List String → String → Bool
in_states to_lowercase states state_l = any (λ s. str_eq (to_lowercase s) state_l) states

abbrev pub normalized_state : (String → String) → Issue → String
normalized_state to_lowercase issue = to_lowercase issue.state

module _ (to_lowercase : String → String) where
  -- One turn of the loop over `blocked_by`: the blocker is in a terminal state.
  unfoldable pub is_released : List String → BlockerRef → Bool
  is_released terminal_states b =
      let bs = to_lowercase (unwrap_or b.state "") in
      if is_empty_str bs then false else in_states to_lowercase terminal_states bs

  unfoldable pub is_dispatch_eligible : Issue → ServiceConfig → Bool
  is_dispatch_eligible issue cfg =
      if is_empty_str issue.id
        || is_empty_str issue.identifier
        || is_empty_str issue.title
        || is_empty_str issue.state
      then false
      else let state_l = normalized_state to_lowercase issue in
        let active = in_states to_lowercase cfg.tracker.active_states state_l in
        let terminal = in_states to_lowercase cfg.tracker.terminal_states state_l in
        if not active || terminal
        then false
        else if not (permits cfg.dispatch_allowlist issue.labels)
        then false
        else if any (λ s. eq_ignore_ascii_case s "Todo") cfg.tracker.active_states
            && str_eq state_l "todo"
        then all (is_released cfg.tracker.terminal_states) issue.blocked_by
        else true

  -- How many runs stand in a state.
  unfoldable pub in_same_state : String → OrchestratorState → ℕ
  in_same_state state_key state = length (
      filter (λ r. str_eq (normalized_state to_lowercase r.issue) state_key) (values state.running))

  unfoldable pub has_slot : OrchestratorState → Issue → ServiceConfig → Bool
  has_slot state issue cfg =
      if leb cfg.agent.max_concurrent_agents (length state.running)
      then false
      else let state_key = normalized_state to_lowercase issue in
        elim (lookup state_key cfg.agent.max_concurrent_agents_by_state) [
          | none ↦ true
          | some per_state ↦ if leb per_state (in_same_state state_key state) then false else true
        ]

abbrev pub priority_key : Option ℤ → ℕ × ℤ
priority_key none = (1, pos 9223372036854775807)
priority_key (some (pos zero)) = (1, pos 0)
priority_key (some (pos (suc n))) = (0, pos (suc n))
priority_key (some (negsuc n)) = (0, negsuc n)

abbrev pub compare_key : ℕ × ℤ → ℕ × ℤ → Ordering
compare_key (a, b) (c, d) = then_by (compare_nat a c) (compare_int b d)

unfoldable pub dispatch_order : Issue → Issue → Ordering
dispatch_order a b =
    then_by
      (then_by (compare_key (priority_key a.priority) (priority_key b.priority))
        (compare_option a.created_at b.created_at))
      (compare_str a.identifier b.identifier)

unfoldable pub sort_for_dispatch : List Issue → List Issue
sort_for_dispatch issues = sort_by dispatch_order issues
