-- ===== src/Daemon/Orchestrator/Retries.antt =====
-- crates/sinfonia/src/orchestrator/retries.rs: the backoff and `schedule`. The handler of a timer,
-- `fire_retry`, stands in Core, since it calls `dispatch_one`.
pub mod Backoff
use sinfonia.Base.{ℕ, ◌-◌, ◌^◌, min, max, [], ◌∷◌, insert, set_insert, u64_saturating_mul}
use sinfonia.Domain.{OrchestratorState, RetryEntry}
use sinfonia.Daemon.Orchestrator.Effects.{Run, start_timer}

-- `attempt.saturating_sub(1).min(20)`: `-` stops at 0 as `saturating_sub` does.
unfoldable pub backoff_ms : ℕ → ℕ → ℕ
backoff_ms attempt max_backoff =
    min (u64_saturating_mul 10000 (2 ^ min (attempt - 1) 20)) (max max_backoff 1000)

unfoldable pub schedule : OrchestratorState → RetryEntry → Run
schedule state entry = (
  record state {
    claimed = set_insert entry.issue_id state.claimed;
    retry_attempts = insert entry.issue_id entry state.retry_attempts;
  },
  start_timer entry.issue_id entry.due_at ∷ [],
)
