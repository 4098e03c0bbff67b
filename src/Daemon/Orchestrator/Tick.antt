-- ===== src/Daemon/Orchestrator/Tick.antt =====
-- crates/sinfonia/src/orchestrator/mod.rs: `tick_body`, with `reconcile_running_issues` and
-- `terminate_running_issue`. What the tracker answers is an argument, `none` where a call fails;
-- `now` is the time that the handler reads; logging and telemetry are left out.
pub mod Ownership
use sinfonia.Base.{
  ℕ, ◌+◌, ◌-◌, ltb, String, Bool, true, false, ◌&&◌, Option, none, some, List, [], ◌∷◌, ◌++◌, Map,
  StringSet, lookup, contains_key, insert, remove, keys, member, set_insert, set_remove, find,
  str_eq, u32_succ, ℤ, to_nat, is_positive, is_some, unwrap_or, if◌then◌else◌, is_empty, not,
}
use sinfonia.Domain.{
  Issue, IssueState, LiveSession, RunningEntry, RetryEntry, CodexTotals, OrchestratorState,
  sanitize_workspace_key,
}
use sinfonia.Daemon.Config.{ServiceConfig, ok, err}
use sinfonia.Daemon.Config.Effective.{validate_for_dispatch}
use sinfonia.Daemon.Orchestrator.Dispatch.{
  is_dispatch_eligible, has_slot, sort_for_dispatch, in_states,
}
use sinfonia.Daemon.Orchestrator.Effects.{
  Effect, Run, run_worker, remove_workspace, DispatchOutcome, dispatched, skipped, no_slot,
  is_dispatched, ◌▸◌,
}
use sinfonia.Daemon.Orchestrator.Retries.{backoff_ms, schedule}
use sinfonia.Daemon.Orchestrator.Core.{drop_run, dispatch_one}

module _ (to_lowercase : String → String) (workspace_path_for : String → String) where
  unfoldable pub terminate_running_issue : ℕ → String → Bool → OrchestratorState → Run
  terminate_running_issue now issue_id cleanup state = elim (lookup issue_id state.running) [
    | none ↦ (state, [])
    | some entry ↦
        let s = drop_run state issue_id entry.started_at now in
        (
          record s {
            claimed = set_remove issue_id s.claimed;
            retry_attempts = remove issue_id s.retry_attempts;
          },
          if cleanup then remove_workspace entry.identifier ∷ [] else [],
        )
  ]

  -- `now - last > stall_threshold`, with a threshold above 0
  abbrev pub is_stalled : ℤ → ℕ → RunningEntry → Bool
  is_stalled stall_ms now r =
      is_positive stall_ms
      && ltb (to_nat stall_ms) (now - unwrap_or r.session.last_codex_timestamp r.started_at)

  unfoldable pub stalled_ids : ℤ → ℕ → Map RunningEntry → List String
  stalled_ids stall_ms now [] = []
  stalled_ids stall_ms now ((id, r) ∷ rest) =
      let later = stalled_ids stall_ms now rest in
      if is_stalled stall_ms now r then id ∷ later else later

  -- One turn of the loop over `to_cancel_stalled`.
  unfoldable pub cancel_stalled : ServiceConfig → ℕ → String → OrchestratorState → Run
  cancel_stalled cfg now id state = elim (lookup id state.running) [
    | none ↦ (state, [])
    | some entry ↦
        let next_attempt = u32_succ (unwrap_or entry.retry_attempt 0) in
        schedule (drop_run state id entry.started_at now) (record {
          issue_id = entry.issue_id;
          identifier = entry.identifier;
          attempt = next_attempt;
          due_at = now + backoff_ms next_attempt cfg.agent.max_retry_backoff_ms;
          error = some "stalled";
        })
  ]

  -- `if let Some(r) = state.running.get_mut(&s.id) { r.issue.state = s.state.clone(); }`
  unfoldable pub refresh_state : IssueState → OrchestratorState → OrchestratorState
  refresh_state s state = elim (lookup s.id state.running) [
    | none ↦ state
    | some r ↦
        let issue = r.issue in
        record state {
          running =
              insert s.id (record r { issue = record issue { state = s.state } }) state.running;
        }
  ]

  -- One turn of the loop over the refreshed states.
  unfoldable pub reconcile_one : ServiceConfig → ℕ → IssueState → OrchestratorState → Run
  reconcile_one cfg now s state =
      let state_l = to_lowercase s.state in
      if in_states to_lowercase cfg.tracker.terminal_states state_l
      then terminate_running_issue now s.id true state
      else if in_states to_lowercase cfg.tracker.active_states state_l
      then (refresh_state s state, [])
      else terminate_running_issue now s.id false state

  unfoldable pub for_each {ℓ} :
      {A : Type ℓ} → (A → OrchestratorState → Run) → List A → OrchestratorState → Run
  for_each body [] state = (state, [])
  for_each body (a ∷ rest) state = body a state ▸ for_each body rest

  -- One turn of the loop over the ids that the tracker did not report.
  unfoldable pub terminate_unseen : ℕ → List IssueState → String → OrchestratorState → Run
  terminate_unseen now refreshed id state =
      if is_some (find (λ s. str_eq s.id id) refreshed)
      then (state, [])
      else terminate_running_issue now id false state

  -- The answer of the tracker is a function of the ids that it is asked for.
  unfoldable pub reconcile_running_issues :
      ServiceConfig → ℕ → (List String → Option (List IssueState)) → OrchestratorState → Run
  reconcile_running_issues cfg now fetch_states state =
      let running_ids = keys state.running in
      for_each (cancel_stalled cfg now) (stalled_ids cfg.llm.stall_timeout_ms now state.running)
        state
      ▸ λ s. if is_empty running_ids then (s, []) else elim (fetch_states running_ids) [
        | none ↦ (s, [])
        | some refreshed ↦
            for_each (reconcile_one cfg now) refreshed s
            ▸ for_each (terminate_unseen now refreshed) running_ids
      ]

  -- The loop of a tick over the sorted candidates: it ends when no slot is free.
  unfoldable pub dispatch_all : ServiceConfig → ℕ → List Issue → OrchestratorState → Run
  dispatch_all cfg now [] state = (state, [])
  dispatch_all cfg now (issue ∷ rest) state =
      let (run, outcome) = dispatch_one to_lowercase workspace_path_for cfg now issue none state in
      let later = run ▸ dispatch_all cfg now rest in elim outcome [ no_slot ↦ run | _ ↦ later ]

  unfoldable pub tick :
      (String → Option String)
      → ServiceConfig
      → ℕ
      → (List String → Option (List IssueState))
      → Option (List Issue)
      → OrchestratorState
      → Run
  tick env_var cfg now fetch_states fetched state =
      reconcile_running_issues cfg now fetch_states state ▸ λ s.
      elim (validate_for_dispatch to_lowercase env_var cfg) [
        | err e ↦ (s, [])
        | ok _ ↦ elim fetched [
          | none ↦ (s, [])
          | some issues ↦ dispatch_all cfg now (sort_for_dispatch issues) s
        ]
      ]
