-- ===== src/Daemon/Orchestrator/Tick/Ownership.antt =====
-- A tick, which reconciles the runs and dispatches, keeps the owners in order.
use sinfonia.Base.{
  ℕ, refl, String, Bool, true, false, Option, none, some, List, [], ◌∷◌, lookup, lookup-remove,
  member-remove, is_some, str_eq, eq_iff, arith, Option-cases, inl, inr, find, is_empty, keys,
}
use sinfonia.Domain.{Issue, IssueState, OrchestratorState}
use sinfonia.Daemon.Config.{ServiceConfig, Result, ok, err}
use sinfonia.Daemon.Config.Effective.{validate_for_dispatch}
use sinfonia.Daemon.Orchestrator.Effects.{Run, DispatchOutcome, dispatched, skipped, no_slot}
use sinfonia.Daemon.Orchestrator.Dispatch.{in_states, sort_for_dispatch}
use sinfonia.Daemon.Orchestrator.Core.{dispatch_one}
use sinfonia.Daemon.Orchestrator.Tick.{
  terminate_running_issue, cancel_stalled, refresh_state, reconcile_one, for_each, terminate_unseen,
  reconcile_running_issues, dispatch_all, tick, stalled_ids,
}
use sinfonia.Daemon.Orchestrator.Core.Ownership.{
  IsOwned, if-IsOwned, schedule-IsOwned, drop_run-IsOwned, update_run-IsOwned, dispatch_one-IsOwned,
}

module _ (to_lowercase : String → String) (workspace_path_for : String → String) where
  pub cancel_stalled-IsOwned :
      (cfg : ServiceConfig) (now : ℕ) (id : String) (s : OrchestratorState)
      → IsOwned s
      → IsOwned (cancel_stalled to_lowercase workspace_path_for cfg now id s).0
  unfolding cancel_stalled
  cancel_stalled-IsOwned cfg now id s h = elim (Option-cases (lookup id s.running)) [
    | inl e ↦ rw (e, cancel_stalled) h
    | inr (r, e) ↦
        let (kept, idle) = drop_run-IsOwned s id r.started_at now h in
        rw (e, cancel_stalled) (schedule-IsOwned _ _ kept (rw ((h.run_claimed id r e).1) idle))
  ]

  pub terminate-IsOwned :
      (now : ℕ) (id : String) (cleanup : Bool) (s : OrchestratorState)
      → IsOwned s
      → IsOwned (terminate_running_issue to_lowercase workspace_path_for now id cleanup s).0
  unfolding terminate_running_issue
  terminate-IsOwned now id cleanup s h = elim (Option-cases (lookup id s.running)) [
    | inl e ↦ rw (e, terminate_running_issue) h
    | inr (r, e) ↦
        let (kept, idle) = drop_run-IsOwned s id r.started_at now h in
        rw (e, terminate_running_issue)
          (record {
            run_claimed = λ j x p.
                let (a, b, d) = kept.run_claimed j x p in
                (
                  ground (arith, member-remove id j s.claimed, a, p, idle, eq_iff id j),
                  b,
                  ground (arith, lookup-remove id j s.retry_attempts, d),
                );
            retry_claimed = λ j x p. ground (
              arith,
              member-remove id j s.claimed,
              lookup-remove id j s.retry_attempts,
              p,
              h.retry_claimed j x,
            );
          })
  ]

  pub refresh_state-IsOwned :
      (i : IssueState) (s : OrchestratorState)
      → IsOwned s
      → IsOwned (refresh_state to_lowercase workspace_path_for i s)
  unfolding refresh_state
  refresh_state-IsOwned i s h = elim (Option-cases (lookup i.id s.running)) [
    | inl e ↦ rw (e, refresh_state) h
    | inr (r, e) ↦
        let issue = r.issue in
        rw (e, refresh_state)
          (update_run-IsOwned s i.id r (record r { issue = record issue { state = i.state } }) h e
            refl)
  ]

  reconcile_one-IsOwned :
      (cfg : ServiceConfig) (now : ℕ) (i : IssueState) (s : OrchestratorState)
      → IsOwned s
      → IsOwned (reconcile_one to_lowercase workspace_path_for cfg now i s).0
  unfolding reconcile_one
  reconcile_one-IsOwned cfg now i s h =
      if-IsOwned (in_states to_lowercase cfg.tracker.terminal_states (to_lowercase i.state)) _ _
        (terminate-IsOwned now i.id true s h)
        (if-IsOwned (in_states to_lowercase cfg.tracker.active_states (to_lowercase i.state)) _ _
          (refresh_state-IsOwned i s h) (terminate-IsOwned now i.id false s h))

  terminate_unseen-IsOwned :
      (now : ℕ) (refreshed : List IssueState) (id : String) (s : OrchestratorState)
      → IsOwned s
      → IsOwned (terminate_unseen to_lowercase workspace_path_for now refreshed id s).0
  unfolding terminate_unseen
  terminate_unseen-IsOwned now refreshed id s h =
      if-IsOwned (is_some (find (λ i. str_eq i.id id) refreshed)) _ _ h
        (terminate-IsOwned now id false s h)

  for_each-IsOwned :
      {A : Type 0} (body : A → OrchestratorState → Run)
      → ((a : A) (s : OrchestratorState) → IsOwned s → IsOwned (body a s).0)
      → (xs : List A) (s : OrchestratorState) → IsOwned s
      → IsOwned (for_each to_lowercase workspace_path_for body xs s).0
  unfolding for_each
  for_each-IsOwned body keep [] s h = h
  for_each-IsOwned body keep (a ∷ xs) s h = for_each-IsOwned body keep xs (body a s).0 (keep a s h)

  pub reconcile-IsOwned :
      (cfg : ServiceConfig) (now : ℕ) (fetch_states : List String → Option (List IssueState))
      (s : OrchestratorState)
      → IsOwned s
      → IsOwned (reconcile_running_issues to_lowercase workspace_path_for cfg now fetch_states s).0
  unfolding reconcile_running_issues
  reconcile-IsOwned cfg now fetch_states s h =
      let cancelled =
        for_each-IsOwned (cancel_stalled to_lowercase workspace_path_for cfg now)
          (cancel_stalled-IsOwned cfg now)
          (stalled_ids to_lowercase workspace_path_for cfg.llm.stall_timeout_ms now s.running) s
          h in
      if-IsOwned (is_empty (keys s.running)) _ _ cancelled
        (elim (Option-cases (fetch_states (keys s.running))) [
          | inl e ↦ rw e cancelled
          | inr (refreshed, e) ↦ rw e (
              for_each-IsOwned _ (terminate_unseen-IsOwned now refreshed) (keys s.running) _
                (for_each-IsOwned _ (reconcile_one-IsOwned cfg now) refreshed _ cancelled))
        ])

  dispatch_all-IsOwned :
      (cfg : ServiceConfig) (now : ℕ) (issues : List Issue) (s : OrchestratorState)
      → IsOwned s
      → IsOwned (dispatch_all to_lowercase workspace_path_for cfg now issues s).0
  unfolding dispatch_all
  dispatch_all-IsOwned cfg now [] s h = h
  dispatch_all-IsOwned cfg now (issue ∷ rest) s h =
      let kept = dispatch_one-IsOwned to_lowercase workspace_path_for cfg now issue none s h in
      let r = dispatch_one to_lowercase workspace_path_for cfg now issue none s in
      outcome_cases r.1 _ _ kept (dispatch_all-IsOwned cfg now rest r.0.0 kept)
    where
      outcome_cases :
          (o : DispatchOutcome) (x y : Run)
          → IsOwned x.0
          → IsOwned y.0
          → IsOwned (elim o as (λ _. Run) [ no_slot ↦ x | _ ↦ y ]).0
      outcome_cases dispatched x y p q = q
      outcome_cases skipped x y p q = q
      outcome_cases no_slot x y p q = p

  pub tick-IsOwned :
      (env_var : String → Option String) (cfg : ServiceConfig) (now : ℕ)
      (fetch_states : List String → Option (List IssueState)) (fetched : Option (List Issue))
      (s : OrchestratorState)
      → IsOwned s
      → IsOwned (tick to_lowercase workspace_path_for env_var cfg now fetch_states fetched s).0
  unfolding tick
  tick-IsOwned env_var cfg now fetch_states fetched s h =
      let kept = reconcile-IsOwned cfg now fetch_states s h in
      ready (validate_for_dispatch to_lowercase env_var cfg) fetched kept
    where
      ready :
          (v : Result (Unit {0})) (fetched : Option (List Issue)) {x : OrchestratorState}
          → IsOwned x
          → IsOwned
              (elim v as (λ _. Run) [
                | err e ↦ (x, [])
                | ok _ ↦ elim fetched as (λ _. Run) [
                  | none ↦ (x, [])
                  | some issues ↦
                      dispatch_all to_lowercase workspace_path_for cfg now
                        (sort_for_dispatch issues)
                        x
                ]
              ]).0
      ready (err e) fetched k = k
      ready (ok _) none k = k
      ready (ok _) (some issues) k = dispatch_all-IsOwned cfg now (sort_for_dispatch issues) _ k
