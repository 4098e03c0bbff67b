-- ===== src/Daemon/Orchestrator/Dispatch/Slots.antt =====
-- What a free slot guarantees: `has_slot` keeps the global and the per-state limit.
use sinfonia.Base.{
  ℕ, ◌<◌, ◌≡◌, ◌↔◌, String, true, some, lookup, length, arith, Option-cases, inl, inr,
}
use sinfonia.Domain.{Issue, OrchestratorState}
use sinfonia.Daemon.Config.{ServiceConfig}
use sinfonia.Daemon.Orchestrator.Dispatch.{has_slot, in_same_state, normalized_state}

module _ (to_lowercase : String → String) where
  -- There is room: fewer runs than the global limit, and fewer runs in the issue's state than the
  -- limit of that state, where it has one.
  pub record HasRoom (state : OrchestratorState) (issue : Issue) (cfg : ServiceConfig)
      : Type 0 where
    pub global : length state.running < cfg.agent.max_concurrent_agents
    pub per_state :
        (limit : ℕ)
        → lookup (normalized_state to_lowercase issue) cfg.agent.max_concurrent_agents_by_state
          ≡ some limit
        → in_same_state to_lowercase (normalized_state to_lowercase issue) state < limit

  pub has_slot-HasRoom :
      (state : OrchestratorState) (issue : Issue) (cfg : ServiceConfig)
      → has_slot to_lowercase state issue cfg ≡ true
      → HasRoom state issue cfg
  unfolding has_slot
  has_slot-HasRoom state issue cfg h = record {
    global = ground arith;
    per_state = λ limit e. ground arith;
  }

  HasRoom-has_slot :
      (state : OrchestratorState) (issue : Issue) (cfg : ServiceConfig)
      → HasRoom state issue cfg
      → has_slot to_lowercase state issue cfg ≡ true
  unfolding has_slot
  HasRoom-has_slot state issue cfg r =
      elim (Option-cases
        (lookup (normalized_state to_lowercase issue) cfg.agent.max_concurrent_agents_by_state)) [
          | inl e ↦ ground (arith, r.global, e)
          | inr (limit, e) ↦ ground (arith, r.global, e, r.per_state limit e)
        ]

  -- `has_slot` answers yes exactly when there is room.
  pub has_slot_iff :
      (state : OrchestratorState) (issue : Issue) (cfg : ServiceConfig)
      → (has_slot to_lowercase state issue cfg ≡ true) ↔ HasRoom state issue cfg
  has_slot_iff state issue cfg =
      (has_slot-HasRoom state issue cfg, HasRoom-has_slot state issue cfg)
