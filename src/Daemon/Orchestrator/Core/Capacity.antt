-- ===== src/Daemon/Orchestrator/Core/Capacity.antt =====
-- The concurrency budget under every interleaving: the sections that a handler of the orchestrator
-- runs while it holds the lock are the steps, in any order, since a handler gives up the lock
-- wherever it awaits.
use sinfonia.Base.{
  ℕ, ◌≤◌, ◌⊎◌, inl, inr, String, Bool, true, false, Option, length, lookup, remove, set_remove,
  length-remove-le, length-insert-le, length-insert_over, arith, Option-cases, Bool-cases,
}
use sinfonia.Domain.{Issue, IssueState, RetryEntry, OrchestratorState}
use sinfonia.Daemon.Config.{ServiceConfig}
use sinfonia.Daemon.Orchestrator.Retries.{schedule}
use sinfonia.Daemon.Orchestrator.Dispatch.{has_slot}
use sinfonia.Daemon.Orchestrator.Dispatch.Slots.{has_slot-HasRoom}
use sinfonia.Daemon.Orchestrator.Core.{dispatch_one, start_run, on_worker_exit, new_entry}
use sinfonia.Daemon.Orchestrator.Tick.{
  terminate_running_issue, cancel_stalled, refresh_state, reconcile_one,
}

module _ (to_lowercase : String → String) (workspace_path_for : String → String) where
  -- The sections under the lock, as they follow one another in the program.
  pub data Step (cfg : ServiceConfig) (s : OrchestratorState) : OrchestratorState → Type 0 where
    dispatch :
        (now : ℕ) (issue : Issue) (attempt : Option ℕ)
        → Step cfg s (dispatch_one to_lowercase workspace_path_for cfg now issue attempt s).0.0
    pop_retry :
        (id : String) → Step cfg s (record s { retry_attempts = remove id s.retry_attempts })
    requeue : (e : RetryEntry) → Step cfg s (schedule s e).0
    release : (id : String) → Step cfg s (record s { claimed = set_remove id s.claimed })
    exit :
        (now : ℕ) (id identifier : String) (normal : Bool) (error : Option String)
        (finished_at started_at : ℕ) (attempt : Option ℕ)
        → Step cfg s
            (on_worker_exit to_lowercase workspace_path_for cfg now id identifier normal error
              finished_at started_at attempt s).0
    cancel :
        (now : ℕ) (id : String)
        → Step cfg s (cancel_stalled to_lowercase workspace_path_for cfg now id s).0
    refresh :
        (now : ℕ) (i : IssueState)
        → Step cfg s (reconcile_one to_lowercase workspace_path_for cfg now i s).0
    terminate :
        (now : ℕ) (id : String) (cleanup : Bool)
        → Step cfg s (terminate_running_issue to_lowercase workspace_path_for now id cleanup s).0

  pub data Reach (cfg : ServiceConfig) (s : OrchestratorState) : OrchestratorState → Type 0 where
    here : Reach cfg s s
    next : {t u : OrchestratorState} → Reach cfg s t → Step cfg t u → Reach cfg s u

  abbrev pub runs : OrchestratorState → ℕ
  runs s = length s.running

  runs-dispatch :
      (cfg : ServiceConfig) (now : ℕ) (issue : Issue) (attempt : Option ℕ) (s : OrchestratorState)
      → let t = (dispatch_one to_lowercase workspace_path_for cfg now issue attempt s).0.0 in
        (runs t ≤ runs s) ⊎ (runs t ≤ cfg.agent.max_concurrent_agents)
  unfolding dispatch_one start_run
  runs-dispatch cfg now issue attempt s = elim (Bool-cases (has_slot to_lowercase s issue cfg)) [
    | inl free ↦ ground (
      arith,
      free,
      (has_slot-HasRoom to_lowercase s issue cfg free).global,
      length-insert-le issue.id (new_entry to_lowercase workspace_path_for now issue attempt)
          s.running,
    )
    | inr full ↦ ground (arith, full)
  ]

  runs-terminate :
      (now : ℕ) (id : String) (cleanup : Bool) (s : OrchestratorState)
      → runs (terminate_running_issue to_lowercase workspace_path_for now id cleanup s).0 ≤ runs s
  unfolding terminate_running_issue
  runs-terminate now id cleanup s = ground (arith, length-remove-le id s.running)

  runs-refresh :
      (i : IssueState) (s : OrchestratorState)
      → runs (refresh_state to_lowercase workspace_path_for i s) ≤ runs s
  unfolding refresh_state
  runs-refresh i s = elim (Option-cases (lookup i.id s.running)) [
    | inl e ↦ rw (e, refresh_state) (omega arith)
    | inr (r, e) ↦
        let issue = r.issue in
        rw (e, refresh_state)
          (omega (
            arith,
            length-insert_over i.id (record r { issue = record issue { state = i.state } }) r
                s.running e,
          ))
  ]

  runs-exit :
      (cfg : ServiceConfig) (now : ℕ) (id identifier : String) (normal : Bool)
      (error : Option String) (finished_at started_at : ℕ) (attempt : Option ℕ)
      (s : OrchestratorState)
      → runs
          (on_worker_exit to_lowercase workspace_path_for cfg now id identifier normal error
            finished_at started_at attempt s).0
        ≤ runs s
  unfolding on_worker_exit schedule
  runs-exit cfg now id identifier true error finished_at started_at attempt s =
      length-remove-le id s.running
  runs-exit cfg now id identifier false error finished_at started_at attempt s =
      length-remove-le id s.running

  runs-cancel :
      (cfg : ServiceConfig) (now : ℕ) (id : String) (s : OrchestratorState)
      → runs (cancel_stalled to_lowercase workspace_path_for cfg now id s).0 ≤ runs s
  unfolding cancel_stalled schedule
  runs-cancel cfg now id s = ground (arith, length-remove-le id s.running)

  runs-reconcile_one :
      (cfg : ServiceConfig) (now : ℕ) (i : IssueState) (s : OrchestratorState)
      → runs (reconcile_one to_lowercase workspace_path_for cfg now i s).0 ≤ runs s
  unfolding reconcile_one
  runs-reconcile_one cfg now i s =
      ground
        (arith, runs-terminate now i.id true s, runs-terminate now i.id false s, runs-refresh i s)

  -- No section but a dispatch adds a run, and a dispatch adds none beyond the limit.
  runs-Step :
      {cfg : ServiceConfig} {s t : OrchestratorState}
      → Step cfg s t
      → (runs t ≤ runs s) ⊎ (runs t ≤ cfg.agent.max_concurrent_agents)
  runs-Step {cfg} {s} (dispatch now issue attempt) = runs-dispatch cfg now issue attempt s
  runs-Step (pop_retry id) = inl (omega arith)
  runs-Step (requeue e) = unfold schedule in inl (omega arith)
  runs-Step (release id) = inl (omega arith)
  runs-Step {cfg} {s} (exit now id identifier normal error finished_at started_at attempt) =
      inl (runs-exit cfg now id identifier normal error finished_at started_at attempt s)
  runs-Step {cfg} {s} (cancel now id) = inl (runs-cancel cfg now id s)
  runs-Step {cfg} {s} (refresh now i) = inl (runs-reconcile_one cfg now i s)
  runs-Step {cfg} {s} (terminate now id cleanup) = inl (runs-terminate now id cleanup s)

  -- From a state within the limit on concurrent agents, no interleaving of the sections reaches a
  -- state with more runs than the limit.
  pub Reach-capacity :
      {cfg : ServiceConfig} {s t : OrchestratorState}
      → runs s ≤ cfg.agent.max_concurrent_agents
      → Reach cfg s t
      → runs t ≤ cfg.agent.max_concurrent_agents
  Reach-capacity h here = h
  Reach-capacity h (next r st) = omega (arith, runs-Step st, Reach-capacity h r)
