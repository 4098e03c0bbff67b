-- ===== src/Daemon/Orchestrator/Core/Handlers.antt =====
-- What a dispatch and the exit of a worker do, on every branch.
use sinfonia.Base.{
  ℕ, ◌+◌, ◌≡◌, ◌≢◌, ◌↔◌, refl, String, Bool, true, false, ◌&&◌, not, Option, none, some, [], ◌∷◌,
  lookup, contains_key, insert, remove, member, set_insert, lookup-insert, lookup-remove,
  member-insert, is_some, unwrap_or, eq_iff, eq_refl, u32_succ, if◌then◌else◌, arith, inl, inr, Map,
  subst, sym,
}
use sinfonia.Domain.{Issue, RunningEntry, RetryEntry, OrchestratorState}
use sinfonia.Daemon.Config.{ServiceConfig}
use sinfonia.Daemon.Orchestrator.Effects.{Run, DispatchOutcome, is_dispatched, run_worker}
use sinfonia.Daemon.Orchestrator.Retries.{schedule, backoff_ms}
use sinfonia.Daemon.Orchestrator.Dispatch.{is_dispatch_eligible, has_slot}
use sinfonia.Daemon.Orchestrator.Core.{dispatch_one, start_run, new_entry, on_worker_exit}
use sinfonia.Daemon.Orchestrator.Core.Ownership.{dispatch_one-cases}

module _ (to_lowercase : String → String) (workspace_path_for : String → String) where
  -- The issue may run, does not, and has room; a claimed one only for the retry that owns it.
  abbrev pub MayStart : ServiceConfig → Issue → Option ℕ → OrchestratorState → Type 0
  MayStart cfg issue attempt s =
      (is_dispatch_eligible to_lowercase issue cfg ≡ true)
      × (contains_key issue.id s.running ≡ false)
      × (has_slot to_lowercase s issue cfg ≡ true)
      × ((member issue.id s.claimed && not (is_some attempt)) ≡ false)

  dispatched_iff :
      (cfg : ServiceConfig) (now : ℕ) (issue : Issue) (attempt : Option ℕ) (s : OrchestratorState)
      → (is_dispatched (dispatch_one to_lowercase workspace_path_for cfg now issue attempt s).1
          ≡ true)
        ↔ MayStart cfg issue attempt s
  unfolding dispatch_one start_run
  dispatched_iff cfg now issue attempt s = (λ h. ground (arith, h), λ h. ground (arith, h))

  -- The run that a dispatch starts
  abbrev pub Started : ℕ → Issue → Option ℕ → Run → Type 0
  Started now issue attempt r =
      (lookup issue.id r.0.running
        ≡ some (new_entry to_lowercase workspace_path_for now issue attempt))
      × (member issue.id r.0.claimed ≡ true)
      × (lookup issue.id r.0.retry_attempts ≡ none)
      × (r.1 ≡ run_worker issue attempt now ∷ [])

  start_run-Started :
      (now : ℕ) (issue : Issue) (attempt : Option ℕ) (s : OrchestratorState)
      → member issue.id s.claimed ≡ true
      → Started now issue attempt (start_run to_lowercase workspace_path_for now issue attempt s).0
  unfolding start_run
  start_run-Started now issue attempt s c = (
    ground (
      arith,
      eq_refl issue.id,
      lookup-insert issue.id issue.id (new_entry to_lowercase workspace_path_for now issue attempt)
          s.running,
    ),
    c,
    ground (arith, eq_refl issue.id, lookup-remove issue.id issue.id s.retry_attempts),
    refl,
  )

  dispatched-Started :
      (cfg : ServiceConfig) (now : ℕ) (issue : Issue) (attempt : Option ℕ) (s : OrchestratorState)
      → is_dispatched (dispatch_one to_lowercase workspace_path_for cfg now issue attempt s).1
        ≡ true
      → Started now issue attempt
          (dispatch_one to_lowercase workspace_path_for cfg now issue attempt s).0
  dispatched-Started cfg now issue attempt s h =
      elim (dispatch_one-cases to_lowercase workspace_path_for cfg now issue attempt s) [
        | inl e ↦ cc (h, e.1)
        | inr e ↦
            subst (λ (r : Run × DispatchOutcome). Started now issue attempt r.0) (sym e)
              (start_run-Started now issue attempt
                (record s { claimed = set_insert issue.id s.claimed })
                (ground (arith, member-insert issue.id issue.id s.claimed, eq_refl issue.id)))
      ]

  refused_unchanged :
      (cfg : ServiceConfig) (now : ℕ) (issue : Issue) (attempt : Option ℕ) (s : OrchestratorState)
      → is_dispatched (dispatch_one to_lowercase workspace_path_for cfg now issue attempt s).1
        ≡ false
      → (dispatch_one to_lowercase workspace_path_for cfg now issue attempt s).0 ≡ (s, [])
  unfolding dispatch_one start_run
  refused_unchanged cfg now issue attempt s h = ground (arith, h)

  -- A dispatch starts a run exactly where the issue is eligible, does not run, has a slot, and is not
  -- claimed, or is by the retry that dispatches it. Then the run is entered, claimed and the one
  -- effect is its worker, and no retry is pending; otherwise nothing changes and nothing is started.
  pub dispatch_one_lem :
      (cfg : ServiceConfig) (now : ℕ) (issue : Issue) (attempt : Option ℕ) (s : OrchestratorState)
      → let r = dispatch_one to_lowercase workspace_path_for cfg now issue attempt s in
        ((is_dispatched r.1 ≡ true) ↔ MayStart cfg issue attempt s)
        × (is_dispatched r.1 ≡ true → Started now issue attempt r.0)
        × (is_dispatched r.1 ≡ false → r.0 ≡ (s, []))
  dispatch_one_lem cfg now issue attempt s = (
    dispatched_iff cfg now issue attempt s,
    dispatched-Started cfg now issue attempt s,
    refused_unchanged cfg now issue attempt s,
  )

  -- The retry that the exit of a worker leaves
  abbrev pub next_retry :
      ServiceConfig → ℕ → String → String → Bool → Option String → Option ℕ → RetryEntry
  next_retry cfg now id identifier normal error attempt =
      let next_attempt = u32_succ (unwrap_or attempt 0) in
      record {
        issue_id = id;
        identifier = identifier;
        attempt = next_attempt;
        due_at =
            now + (if normal then 1000 else backoff_ms next_attempt cfg.agent.max_retry_backoff_ms);
        error = if normal then none else error;
      }

  -- An issue moves from the runs to the retries.
  moved :
      (id : String) (running : Map RunningEntry) (retries : Map RetryEntry) (e : RetryEntry)
      → (lookup id (remove id running) ≡ none)
        × (lookup id (insert id e retries) ≡ some e)
        × ((other : String)
            → other ≢ id
            → (lookup other (remove id running) ≡ lookup other running)
              × (lookup other (insert id e retries) ≡ lookup other retries))
  moved id running retries e = (
    ground (arith, lookup-remove id id running, eq_refl id),
    ground (arith, lookup-insert id id e retries, eq_refl id),
    λ other ne. (
      ground (arith, lookup-remove id other running, eq_iff id other, ne),
      ground (arith, lookup-insert id other e retries, eq_iff id other, ne),
    ),
  )

  -- The exit of a worker, whenever it was started, leaves no run of the issue, and a retry with the
  -- next attempt, due after a second where it ended normally and after the backoff otherwise; the runs
  -- and the retries of other issues stay.
  pub on_worker_exit_lem :
      (cfg : ServiceConfig) (now : ℕ) (id identifier : String) (normal : Bool)
      (error : Option String) (finished_at started_at : ℕ) (attempt : Option ℕ)
      (s : OrchestratorState)
      → let t =
          (on_worker_exit to_lowercase workspace_path_for cfg now id identifier normal error
            finished_at started_at attempt s).0 in
        (lookup id t.running ≡ none)
        × (lookup id t.retry_attempts
            ≡ some (next_retry cfg now id identifier normal error attempt))
        × ((other : String)
            → other ≢ id
            → (lookup other t.running ≡ lookup other s.running)
              × (lookup other t.retry_attempts ≡ lookup other s.retry_attempts))
  unfolding on_worker_exit schedule
  on_worker_exit_lem cfg now id identifier true error finished_at started_at attempt s =
      moved id s.running s.retry_attempts (next_retry cfg now id identifier true error attempt)
  on_worker_exit_lem cfg now id identifier false error finished_at started_at attempt s =
      moved id s.running s.retry_attempts (next_retry cfg now id identifier false error attempt)
