-- ===== src/Daemon/Orchestrator/Effects.antt =====
-- What a handler of the orchestrator does besides changing its state, in the order in which it
-- does it: `tokio::spawn` of a worker or of a timer, and the removal of a workspace.
use sinfonia.Base.{ℕ, String, Bool, true, false, Option, List, ◌++◌}
use sinfonia.Domain.{Issue, OrchestratorState}

pub data Effect : Type 0 where
  -- run_worker(issue, attempt, started_at)
  run_worker : Issue → Option ℕ → ℕ → Effect
  -- the one-shot timer of `schedule`: the issue's id and the time when it fires
  start_timer : String → ℕ → Effect
  -- `WorkspaceManager::remove(identifier)`
  remove_workspace : String → Effect

abbrev pub Run : Type 0
Run = OrchestratorState × List Effect

-- The effects of a second action come after those of the first.
infixl 20 ◌▸◌
abbrev pub ◌▸◌ : Run → (OrchestratorState → Run) → Run
r ▸ f = let (s, later) = f r.0 in (s, r.1 ++ later)

pub data DispatchOutcome : Type 0 where
  dispatched skipped no_slot : DispatchOutcome

abbrev pub continue_loop : DispatchOutcome → Bool
continue_loop no_slot = false
continue_loop _ = true

abbrev pub is_dispatched : DispatchOutcome → Bool
is_dispatched dispatched = true
is_dispatched _ = false
