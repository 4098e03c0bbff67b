-- ===== src/Daemon/Orchestrator/Core.antt =====
-- crates/sinfonia/src/orchestrator/mod.rs and `fire_retry` of retries.rs: the handlers of one
-- issue that change the orchestrator's state, each with the effects that it leaves. A handler that awaits the
-- tracker is cut there: the answer is an argument, `none` where the call fails. `now` is the time
-- that the handler reads; logging and telemetry are left out.

pub mod Handlers
pub mod Ownership
pub mod RetryOwnership
pub mod Capacity
use sinfonia.Base.{
  ℕ, ◌+◌, ◌-◌, ltb, String, Bool, true, false, ◌&&◌, Option, none, some, List, [], ◌∷◌, ◌++◌, Map,
  StringSet, lookup, contains_key, insert, remove, keys, member, set_insert, set_remove, find,
  str_eq, u32_succ, ℤ, to_nat, is_positive, is_some, unwrap_or, if◌then◌else◌, is_empty, not,
}
use sinfonia.Domain.{
  Issue, IssueState, LiveSession, RunningEntry, RetryEntry, CodexTotals, OrchestratorState,
  sanitize_workspace_key,
}
use sinfonia.Daemon.Config.{ServiceConfig, ok, err}
use sinfonia.Daemon.Config.Effective.{validate_for_dispatch}
use sinfonia.Daemon.Orchestrator.Dispatch.{
  is_dispatch_eligible, has_slot, sort_for_dispatch, in_states,
}
use sinfonia.Daemon.Orchestrator.Effects.{
  Effect, Run, run_worker, remove_workspace, DispatchOutcome, dispatched, skipped, no_slot,
  is_dispatched, ◌▸◌,
}
use sinfonia.Daemon.Orchestrator.Retries.{backoff_ms, schedule}

abbrev pub fresh_session : LiveSession
fresh_session = record {
  session_id = none;
  thread_id = none;
  turn_id = none;
  codex_app_server_pid = none;
  last_codex_event = none;
  last_codex_timestamp = none;
  last_codex_message = none;
  codex_input_tokens = 0;
  codex_output_tokens = 0;
  codex_total_tokens = 0;
  last_reported_input_tokens = 0;
  last_reported_output_tokens = 0;
  last_reported_total_tokens = 0;
  turn_count = 0;
}

-- `seconds_running += (to - from).max(0)`, in milliseconds
abbrev pub add_seconds : OrchestratorState → ℕ → ℕ → OrchestratorState
add_seconds state from to =
    let totals = state.codex_totals in
    record state {
      codex_totals = record totals { seconds_running = totals.seconds_running + (to - from) };
    }

-- A removal of a run: the entry goes, and its time is added.
abbrev pub drop_run : OrchestratorState → String → ℕ → ℕ → OrchestratorState
drop_run state id from to = add_seconds (record state { running = remove id state.running }) from to

-- `workspace_path_for` is the parameter of the same name: a path under the root.
module _ (to_lowercase : String → String) (workspace_path_for : String → String) where
  -- The entry of a run that starts.
  abbrev pub new_entry : ℕ → Issue → Option ℕ → RunningEntry
  new_entry now issue attempt = record {
    issue_id = issue.id;
    identifier = issue.identifier;
    issue = issue;
    workspace_path = workspace_path_for issue.identifier;
    session = fresh_session;
    retry_attempt = attempt;
    started_at = now;
  }

  -- The part of `dispatch_one` behind the guards: the run is entered and its worker started.
  unfoldable pub start_run : ℕ → Issue → Option ℕ → OrchestratorState → Run × DispatchOutcome
  start_run now issue attempt state = (
    (
      record state {
        running = insert issue.id (new_entry now issue attempt) state.running;
        retry_attempts = remove issue.id state.retry_attempts;
      },
      run_worker issue attempt now ∷ [],
    ),
    dispatched,
  )

  unfoldable pub dispatch_one :
      ServiceConfig → ℕ → Issue → Option ℕ → OrchestratorState → Run × DispatchOutcome
  dispatch_one cfg now issue attempt state =
      if not (is_dispatch_eligible to_lowercase issue cfg)
      then ((state, []), skipped)
      else if contains_key issue.id state.running
      then ((state, []), skipped)
      else if member issue.id state.claimed
      then if not (is_some attempt)
        then ((state, []), skipped)
        else if not (has_slot to_lowercase state issue cfg)
        then ((state, []), no_slot)
        else start_run now issue attempt state
      else if not (has_slot to_lowercase state issue cfg)
      then ((state, []), no_slot)
      else start_run now issue attempt
          (record state { claimed = set_insert issue.id state.claimed })

  -- The entry that `fire_retry` writes back when it cannot dispatch.
  abbrev pub requeued : ServiceConfig → ℕ → RetryEntry → String → String → RetryEntry
  requeued cfg now entry identifier reason = record {
    issue_id = entry.issue_id;
    identifier = identifier;
    attempt = u32_succ entry.attempt;
    due_at = now + backoff_ms (u32_succ entry.attempt) cfg.agent.max_retry_backoff_ms;
    error = some reason;
  }

  abbrev pub requeue_reason : DispatchOutcome → String
  requeue_reason no_slot = "no available orchestrator slots"
  requeue_reason _ = "not dispatch-eligible (gated/blocked)"

  -- The issue of a retry is still a candidate: it is dispatched, or the retry is scheduled again.
  unfoldable pub retry_issue : ServiceConfig → ℕ → RetryEntry → Issue → OrchestratorState → Run
  retry_issue cfg now entry issue state =
      let (run, outcome) = dispatch_one cfg now issue (some entry.attempt) state in
      if is_dispatched outcome
      then run
      else run ▸ λ s. schedule s (requeued cfg now entry issue.identifier (requeue_reason outcome))

  -- The second part of `fire_retry`, behind the fetch of the candidates.
  unfoldable pub finish_retry :
      ServiceConfig → ℕ → RetryEntry → String → Option (List Issue) → OrchestratorState → Run
  finish_retry cfg now entry issue_id fetched state = elim fetched [
    | none ↦ schedule state (requeued cfg now entry entry.identifier "retry poll failed")
    | some candidates ↦ elim (find (λ i. str_eq i.id issue_id) candidates) [
      | none ↦ (record state { claimed = set_remove issue_id state.claimed }, [])
      | some issue ↦ retry_issue cfg now entry issue state
    ]
  ]

  -- A timer fires: the entry is popped, if it is still there.
  unfoldable pub fire_retry :
      ServiceConfig → ℕ → String → Option (List Issue) → OrchestratorState → Run
  fire_retry cfg now issue_id fetched state = elim (lookup issue_id state.retry_attempts) [
    | none ↦ (state, [])
    | some entry ↦
        finish_retry cfg now entry issue_id fetched
          (record state { retry_attempts = remove issue_id state.retry_attempts })
  ]

  -- A run ends: the entry goes, and a retry is scheduled, after a second or after the backoff.
  unfoldable pub on_worker_exit :
      ServiceConfig
      → ℕ
      → String
      → String
      → Bool
      → Option String
      → ℕ
      → ℕ
      → Option ℕ
      → OrchestratorState
      → Run
  on_worker_exit cfg now issue_id identifier normal error finished_at started_at attempt state =
      let s = drop_run state issue_id started_at finished_at in
      let next_attempt = u32_succ (unwrap_or attempt 0) in
      if normal
      then schedule (record s { completed = set_insert issue_id s.completed })
          (record {
            issue_id = issue_id;
            identifier = identifier;
            attempt = next_attempt;
            due_at = now + 1000;
            error = none;
          })
      else schedule s (record {
        issue_id = issue_id;
        identifier = identifier;
        attempt = next_attempt;
        due_at = now + backoff_ms next_attempt cfg.agent.max_retry_backoff_ms;
        error = error;
      })
