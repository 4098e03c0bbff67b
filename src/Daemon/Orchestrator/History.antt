-- ===== src/Daemon/Orchestrator/History.antt =====
-- The orchestrator over a whole life: any sequence of ticks, timers, worker exits and agent events,
-- each handler run to its end before the next.
use sinfonia.Base.{
  ℕ, refl, String, Bool, Option, none, List, [], ◌∷◌, lookup, Option-cases, inl, inr,
}
use sinfonia.Domain.{Issue, IssueState, OrchestratorState}
use sinfonia.Daemon.Config.{ServiceConfig}
use sinfonia.Daemon.Orchestrator.AgentEvents.{AgentEvent, consume_agent_event, account}
use sinfonia.Daemon.Orchestrator.Core.{fire_retry, on_worker_exit}
use sinfonia.Daemon.Orchestrator.Tick.{tick}
use sinfonia.Daemon.Orchestrator.Core.Ownership.{IsOwned, update_run-IsOwned}
use sinfonia.Daemon.Orchestrator.Tick.Ownership.{tick-IsOwned}
use sinfonia.Daemon.Orchestrator.Core.RetryOwnership.{fire_retry-IsOwned, on_worker_exit-IsOwned}

-- What reaches the orchestrator, with the answers of the tracker and the time.
pub data Request : Type 0 where
  poll :
      ServiceConfig → ℕ → (List String → Option (List IssueState)) → Option (List Issue) → Request
  timer : ServiceConfig → ℕ → String → Option (List Issue) → Request
  exited : ServiceConfig → ℕ → String → String → Bool → Option String → ℕ → ℕ → Option ℕ → Request
  agent : String → AgentEvent → Request

-- `OrchestratorState::default()` with the two configured values.
unfoldable pub initial : ServiceConfig → OrchestratorState
initial cfg = record {
  poll_interval_ms = cfg.polling.interval_ms;
  max_concurrent_agents = cfg.agent.max_concurrent_agents;
  running = [];
  claimed = [];
  retry_attempts = [];
  completed = [];
  codex_totals = record {
    input_tokens = 0;
    output_tokens = 0;
    total_tokens = 0;
    seconds_running = 0;
  };
  codex_rate_limits = none;
}

pub initial-IsOwned : (cfg : ServiceConfig) → IsOwned (initial cfg)
unfolding initial lookup
initial-IsOwned cfg = record { run_claimed = λ id r p. cc; retry_claimed = λ id e p. cc }

consume-IsOwned :
    (id : String) (ev : AgentEvent) (s : OrchestratorState)
    → IsOwned s
    → IsOwned (consume_agent_event id ev s)
unfolding consume_agent_event
consume-IsOwned id ev s h = elim (Option-cases (lookup id s.running)) [
  | inl e ↦ rw (e, consume_agent_event) h
  | inr (r, e) ↦
      let kept =
        update_run-IsOwned s id r (record r { session = (account ev r.session s.codex_totals).0 }) h
          e refl in
      rw (e, consume_agent_event)
        (record { run_claimed = kept.run_claimed; retry_claimed = kept.retry_claimed })
]

module _ (to_lowercase : String → String) (workspace_path_for : String → String)
    (env_var : String → Option String) where
  unfoldable pub handle : Request → OrchestratorState → OrchestratorState
  handle (poll cfg now fetch_states fetched) s =
      (tick to_lowercase workspace_path_for env_var cfg now fetch_states fetched s).0
  handle (timer cfg now id fetched) s =
      (fire_retry to_lowercase workspace_path_for cfg now id fetched s).0
  handle (exited cfg now id identifier normal error finished_at started_at attempt) s =
      (on_worker_exit to_lowercase workspace_path_for cfg now id identifier normal error finished_at
        started_at attempt s).0
  handle (agent id ev) s = consume_agent_event id ev s

  handle-IsOwned : (q : Request) (s : OrchestratorState) → IsOwned s → IsOwned (handle q s)
  unfolding handle
  handle-IsOwned (poll cfg now fetch_states fetched) s h =
      tick-IsOwned to_lowercase workspace_path_for env_var cfg now fetch_states fetched s h
  handle-IsOwned (timer cfg now id fetched) s h =
      fire_retry-IsOwned to_lowercase workspace_path_for cfg now id fetched s h
  handle-IsOwned (exited cfg now id identifier normal error finished_at started_at attempt) s h =
      on_worker_exit-IsOwned to_lowercase workspace_path_for cfg now id identifier normal error
        finished_at started_at attempt s h
  handle-IsOwned (agent id ev) s h = consume-IsOwned id ev s h

  unfoldable pub serve : List Request → OrchestratorState → OrchestratorState
  serve [] s = s
  serve (q ∷ rest) s = serve rest (handle q s)

  serve_from-IsOwned :
      (qs : List Request) (s : OrchestratorState) → IsOwned s → IsOwned (serve qs s)
  unfolding serve
  serve_from-IsOwned [] s h = h
  serve_from-IsOwned (q ∷ rest) s h = serve_from-IsOwned rest (handle q s) (handle-IsOwned q s h)

  -- After any requests from the start, whatever the tracker answers and the configuration becomes:
  -- every run and every pending retry is stored under its own issue's id and claimed, and no issue
  -- has both a run and a pending retry.
  pub serve-IsOwned : (cfg : ServiceConfig) (qs : List Request) → IsOwned (serve qs (initial cfg))
  serve-IsOwned cfg qs = serve_from-IsOwned qs (initial cfg) (initial-IsOwned cfg)
