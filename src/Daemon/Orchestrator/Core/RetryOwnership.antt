-- ===== src/Daemon/Orchestrator/Core/RetryOwnership.antt =====
-- A retry that fires, and a worker that exits, keep the owners in order.
use sinfonia.Base.{
  ℕ, ◌≡◌, String, Bool, true, false, Option, none, some, List, lookup, remove, set_remove,
  lookup-remove, member-remove, str_eq, eq_iff, eq_refl, arith, Option-cases, inl, inr, find, subst,
}
use sinfonia.Domain.{Issue, RetryEntry, OrchestratorState}
use sinfonia.Daemon.Config.{ServiceConfig}
use sinfonia.Daemon.Orchestrator.Effects.{Run, DispatchOutcome}
use sinfonia.Daemon.Orchestrator.Core.{
  finish_retry, fire_retry, on_worker_exit, start_run, retry_issue,
}
use sinfonia.Daemon.Orchestrator.Core.Ownership.{
  IsOwned, schedule-IsOwned, drop_run-IsOwned, dispatch_one-cases, dispatch_one-IsOwned,
}

module _ (to_lowercase : String → String) (workspace_path_for : String → String) where
  release-IsOwned :
      (s : OrchestratorState) (id : String)
      → IsOwned s
      → lookup id s.running ≡ none
      → lookup id s.retry_attempts ≡ none
      → IsOwned (record s { claimed = set_remove id s.claimed })
  release-IsOwned s id h idle no_retry = record {
    run_claimed = λ j r p.
        let (a, b, d) = h.run_claimed j r p in
        (ground (arith, member-remove id j s.claimed, a, p, eq_iff id j), b, d);
    retry_claimed = λ j e p.
        let (a, b) = h.retry_claimed j e p in
        (ground (arith, member-remove id j s.claimed, a, p, eq_iff id j), b);
  }

  retry_issue-IsOwned :
      (cfg : ServiceConfig) (now : ℕ) (entry : RetryEntry) (issue : Issue) (s : OrchestratorState)
      → IsOwned s
      → lookup entry.issue_id s.running ≡ none
      → IsOwned (retry_issue to_lowercase workspace_path_for cfg now entry issue s).0
  unfolding retry_issue
  retry_issue-IsOwned cfg now entry issue s h idle =
      elim (dispatch_one-cases to_lowercase workspace_path_for cfg now issue (some entry.attempt)
        s) [
          | inl e ↦ rw (e.1, e.0) (schedule-IsOwned s _ h idle)
          | inr e ↦ rw e (
              unfold start_run in
              subst (λ (r : Run × DispatchOutcome). IsOwned r.0.0) e
                (dispatch_one-IsOwned to_lowercase workspace_path_for cfg now issue
                  (some entry.attempt) s h))
        ]

  -- Behind the fetch, for an entry that was popped.
  finish_retry-IsOwned :
      (cfg : ServiceConfig) (now : ℕ) (entry : RetryEntry) (id : String)
      (fetched : Option (List Issue)) (s : OrchestratorState)
      → IsOwned s
      → entry.issue_id ≡ id
      → lookup id s.running ≡ none
      → lookup id s.retry_attempts ≡ none
      → IsOwned (finish_retry to_lowercase workspace_path_for cfg now entry id fetched s).0
  unfolding finish_retry
  finish_retry-IsOwned cfg now entry id none s h named idle popped =
      schedule-IsOwned s _ h (rw named idle)
  finish_retry-IsOwned cfg now entry id (some candidates) s h named idle popped =
      elim (Option-cases (find (λ i. str_eq i.id id) candidates)) [
        | inl e ↦ rw (e, finish_retry) (release-IsOwned s id h idle popped)
        | inr (issue, e) ↦
            rw (e, finish_retry) (retry_issue-IsOwned cfg now entry issue s h (rw named idle))
      ]

  -- A pending retry means that the issue does not run.
  idle_of_retry :
      (s : OrchestratorState) (id : String) (e : RetryEntry)
      → IsOwned s
      → lookup id s.retry_attempts ≡ some e
      → lookup id s.running ≡ none
  idle_of_retry s id e h p = elim (Option-cases (lookup id s.running)) [
    | inl q ↦ q
    | inr (r, q) ↦ cc (h.run_claimed id r q).2
  ]

  pub fire_retry-IsOwned :
      (cfg : ServiceConfig) (now : ℕ) (id : String) (fetched : Option (List Issue))
      (s : OrchestratorState)
      → IsOwned s
      → IsOwned (fire_retry to_lowercase workspace_path_for cfg now id fetched s).0
  unfolding fire_retry
  fire_retry-IsOwned cfg now id fetched s h = elim (Option-cases (lookup id s.retry_attempts)) [
    | inl e ↦ rw (e, fire_retry) h
    | inr (entry, e) ↦
        rw (e, fire_retry)
          (finish_retry-IsOwned cfg now entry id fetched
            (record s { retry_attempts = remove id s.retry_attempts })
            (record {
              run_claimed = λ j r p.
                  let (a, b, d) = h.run_claimed j r p in
                  (a, b, ground (arith, lookup-remove id j s.retry_attempts, d));
              retry_claimed = λ j x p.
                  h.retry_claimed j x (ground (arith, lookup-remove id j s.retry_attempts, p));
            })
            (h.retry_claimed id entry e).1 (idle_of_retry s id entry h e)
            (ground (arith, lookup-remove id id s.retry_attempts, eq_refl id)))
  ]

  pub on_worker_exit-IsOwned :
      (cfg : ServiceConfig) (now : ℕ) (id identifier : String) (normal : Bool)
      (error : Option String) (finished_at started_at : ℕ) (attempt : Option ℕ)
      (s : OrchestratorState)
      → IsOwned s
      → IsOwned
          (on_worker_exit to_lowercase workspace_path_for cfg now id identifier normal error
            finished_at started_at attempt s).0
  unfolding on_worker_exit
  on_worker_exit-IsOwned cfg now id identifier true error finished_at started_at attempt s h =
      let (kept, idle) = drop_run-IsOwned s id started_at finished_at h in
      schedule-IsOwned _ _
        (record { run_claimed = kept.run_claimed; retry_claimed = kept.retry_claimed }) idle
  on_worker_exit-IsOwned cfg now id identifier false error finished_at started_at attempt s h =
      let (kept, idle) = drop_run-IsOwned s id started_at finished_at h in
      schedule-IsOwned _ _ kept idle
