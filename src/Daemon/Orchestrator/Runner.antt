-- ===== src/Daemon/Orchestrator/Runner.antt =====
-- crates/sinfonia/src/orchestrator/runner.rs: one attempt at an issue, from its workspace to the event that
-- tells of the session. The agent, the hooks, the template and the tracker are answers that may depend on
-- what was done before; what an agent sends during its turn is its own.
mod Examples
pub mod Counts
pub mod Report
use sinfonia.Base.{
  ℕ, zero, suc, ◌+◌, max, leb, String, Bool, true, false, ◌&&◌, ◌||◌, not, Option, none, some, List,
  [], ◌∷◌, ◌++◌, any, str_eq, concat, decimal, u64_saturating_add, if◌then◌else◌, ◌==◌,
}
use sinfonia.Domain.{Issue}
use sinfonia.Daemon.Config.{AgentProvider, ServiceConfig, LlmConfig, same_provider, debug_provider}
use sinfonia.Daemon.Config.Effective.{effective_llm_for_state, effective_prompt_template}
use sinfonia.Daemon.Orchestrator.AgentEvents.{
  AgentEvent, TokenUsage, session_started, startup_failed, session_completed,
}

-- The errors that an exit reason tells apart; any other keeps its text.
pub data RunError : Type 0 where
  turn_failed other : String → RunError
  turn_timeout turn_input_required : RunError

pub data Outcome {ℓ} (A : Type ℓ) : Type ℓ where
  done : A → Outcome A
  failed : RunError → Outcome A

pub data HookKind : Type 0 where
  after_create before_run after_run before_remove : HookKind

-- `Result<TurnOutcome>`; the final message is not looked at.
pub data TurnAnswer : Type 0 where
  completed : TokenUsage → TurnAnswer
  turn_error : String → TurnAnswer
  timed_out input_required : TurnAnswer
  broken : RunError → TurnAnswer

-- What an attempt does, in order
pub data Step : Type 0 where
  ran_hook : HookKind → Step
  ran_turn : ℕ → String → TurnAnswer → Step
  read_state stopped_session : Step
  sent : AgentEvent → Step

-- The path and the key are not looked at.
pub record Workspace : Type 0 where
  pub created_now : Bool

pub record Surroundings : Type 0 where
  pub ensure_for_issue : String → Outcome Workspace
  pub run_hook : List Step → HookKind → Outcome (Unit {0})
  pub build_for : LlmConfig → Outcome (Unit {0})
  pub start_session : List Step → Outcome String
  pub run_turn : List Step → TurnAnswer
  -- the states of the issue, as the tracker has them
  pub fetch_states : List Step → Outcome (List String)
  pub render_prompt : String → Issue → Option ℕ → Outcome String
  pub now : List Step → ℕ
  pub error_text : RunError → String

unfoldable pub exit_reason_for : Outcome (Unit {0}) → String
exit_reason_for (done _) = "completed"
exit_reason_for (failed (turn_failed _)) = "error"
exit_reason_for (failed turn_timeout) = "stall"
exit_reason_for (failed turn_input_required) = "input_required"
exit_reason_for (failed (other _)) = "error"

abbrev pub accumulate_usage : TokenUsage → TokenUsage → TokenUsage
accumulate_usage total delta = record {
  input_tokens = u64_saturating_add total.input_tokens delta.input_tokens;
  output_tokens = u64_saturating_add total.output_tokens delta.output_tokens;
  total_tokens = u64_saturating_add total.total_tokens delta.total_tokens;
}

-- How the loop stands: its issue, the usage and the turns so far, and what was done
pub record Progress : Type 0 where
  pub issue : Issue
  pub session_total : TokenUsage
  pub turn_count : ℕ
  pub steps : List Step

abbrev pub did : Step → Progress → Progress
did s p = record p { steps = p.steps ++ s ∷ [] }

abbrev pub first_state : List String → String → String
first_state [] state = state
first_state (s ∷ _) state = s

abbrev pub with_state : List String → Issue → Issue
with_state states issue = record issue { state = first_state states issue.state }

-- What an attempt is made with, its lane included
pub record Attempt : Type 0 where
  pub to_lowercase : String → String
  pub env_var : String → Option String
  pub around : Surroundings
  pub cfg : ServiceConfig
  pub workflow : String
  pub initial_attempt : Option ℕ
  pub llm : LlmConfig

module _ (attempt : Attempt) where
  open attempt use {to_lowercase, env_var, around, cfg, workflow, initial_attempt, llm}
  open around use {
    ensure_for_issue, run_hook, build_for, start_session, run_turn, fetch_states, render_prompt,
    now, error_text,
  }

  -- `cfg.agent.max_turns.max(1)`
  abbrev pub turn_limit : ℕ
  turn_limit = max cfg.agent.max_turns 1

  abbrev pub continuation : Issue → ℕ → String
  continuation issue turn = concat (
      "Continue working on issue "
      ∷ issue.identifier
      ∷ " (turn "
      ∷ decimal turn
      ∷ "/"
      ∷ decimal turn_limit
      ∷ "). The full task description was sent at the start of this thread; do not repeat it. Make additional progress if needed, then call `finish`."
      ∷ [])

  -- The template is rendered for the first turn alone.
  abbrev pub prompt_for : Issue → ℕ → Outcome String
  prompt_for issue turn =
      if turn == 1
      then render_prompt (effective_prompt_template to_lowercase env_var cfg issue.state workflow)
          issue initial_attempt
      else done (continuation issue turn)

  abbrev pub is_active : Issue → Bool
  is_active issue =
      any (λ a. str_eq (to_lowercase a) (to_lowercase issue.state)) cfg.tracker.active_states

  -- The new state of the issue belongs to another agent.
  abbrev pub hands_off : String → Issue → Bool
  hands_off prior_state issue =
      let next = effective_llm_for_state to_lowercase env_var cfg issue.state in
      not (str_eq (to_lowercase prior_state) (to_lowercase issue.state))
      && (not (same_provider next.provider llm.provider) || not (str_eq next.model llm.model))

  -- Behind the refresh: whether the loop ends
  abbrev pub ends_here : ℕ → String → Issue → Bool
  ends_here turn prior_state issue =
      not (is_active issue) || hands_off prior_state issue || leb turn_limit turn

  abbrev pub refreshed : Outcome (List String) → Progress → Outcome (Unit {0}) × Progress
  refreshed (failed e) p =
      (failed (other (concat ("post-turn state refresh: " ∷ error_text e ∷ []))), p)
  refreshed (done states) p = (done tt, record p { issue = with_state states p.issue })

  -- What a turn's answer makes of the attempt: an error, or its usage and the refresh
  abbrev pub turn_ended : TurnAnswer → ℕ → Progress → Outcome (Unit {0}) × Progress
  turn_ended (broken e) turn p = (failed e, p)
  turn_ended (turn_error message) turn p =
      (failed (turn_failed message), record p { turn_count = turn })
  turn_ended timed_out turn p = (failed turn_timeout, record p { turn_count = turn })
  turn_ended input_required turn p = (failed turn_input_required, record p { turn_count = turn })
  turn_ended (completed usage) turn p = refreshed (fetch_states p.steps) (
      did read_state
        (record p { turn_count = turn; session_total = accumulate_usage p.session_total usage }))

  abbrev pub prompted : Outcome String → ℕ → Progress → Outcome (Unit {0}) × Progress
  prompted (failed e) turn p = (failed e, p)
  prompted (done prompt) turn p =
      turn_ended (run_turn p.steps) turn (did (ran_turn turn prompt (run_turn p.steps)) p)

  abbrev pub one_turn : ℕ → Progress → Outcome (Unit {0}) × Progress
  one_turn turn p = prompted (prompt_for p.issue turn) turn p

  -- The end of a turn: an error, a reason to stop, or what the turns behind it give
  abbrev pub behind_turn :
      ℕ
      → String
      → Outcome (Unit {0}) × Progress
      → Outcome (Unit {0}) × Progress
      → Outcome (Unit {0}) × Progress
  behind_turn turn prior_state (failed e, q) later = (failed e, q)
  behind_turn turn prior_state (done _, q) later =
      if ends_here turn prior_state q.issue then (done tt, q) else later

  -- The turns that are left, and the number of the next one
  unfoldable pub run_turns : ℕ → ℕ → Progress → Outcome (Unit {0}) × Progress
  run_turns zero turn p = (done tt, p)
  run_turns (suc left) turn p =
      let r = one_turn turn p in behind_turn turn p.issue.state r (run_turns left (suc turn) r.1)

  -- What the hook makes of it is not looked at.
  abbrev pub run_after : Option String → Progress → Progress
  run_after none p = p
  run_after (some script) p = did (ran_hook after_run) p

  abbrev pub after_run_best_effort : Progress → Progress
  after_run_best_effort p = run_after cfg.hooks.after_run p

  abbrev pub completed_event : String → ℕ → Outcome (Unit {0}) → Progress → AgentEvent
  completed_event thread started outcome p =
      session_completed (now p.steps) thread p.issue.id p.issue.identifier p.issue.state
        (debug_provider llm.provider) llm.model p.turn_count p.session_total.input_tokens
        p.session_total.output_tokens p.session_total.total_tokens started (exit_reason_for outcome)

  -- Behind the loop; `duration_ms` is what the clock says.
  unfoldable pub finish_session :
      String → ℕ → Outcome (Unit {0}) × Progress → Outcome (Unit {0}) × List Step
  finish_session thread duration_ms (outcome, p) =
      let q = after_run_best_effort (did stopped_session p) in
      (outcome, q.steps ++ sent (completed_event thread duration_ms outcome q) ∷ [])

  abbrev pub started : Outcome String → Progress → ℕ → Outcome (Unit {0}) × List Step
  started (failed e) p duration_ms = (
    failed e,
    (after_run_best_effort (did (sent (startup_failed (now p.steps) (error_text e))) p)).steps,
  )
  started (done thread) p duration_ms =
      finish_session thread duration_ms
        (run_turns turn_limit 1 (did (sent (session_started (now p.steps) thread none)) p))

  abbrev pub with_agent : Outcome (Unit {0}) → Progress → ℕ → Outcome (Unit {0}) × List Step
  with_agent (failed e) p duration_ms = (failed e, p.steps)
  with_agent (done _) p duration_ms = started (start_session p.steps) p duration_ms

  abbrev pub if_hook_succeeds :
      Outcome (Unit {0})
      → Progress
      → (Progress → Outcome (Unit {0}) × List Step)
      → Outcome (Unit {0}) × List Step
  if_hook_succeeds (failed e) p next = (failed e, p.steps)
  if_hook_succeeds (done _) p next = next p

  -- A hook that is configured, and what follows where it succeeds
  abbrev pub hooked :
      Option String
      → HookKind
      → Progress
      → (Progress → Outcome (Unit {0}) × List Step)
      → Outcome (Unit {0}) × List Step
  hooked none kind p next = next p
  hooked (some script) kind p next =
      if_hook_succeeds (run_hook p.steps kind) (did (ran_hook kind) p) next

  abbrev pub at_start : Issue → Progress
  at_start issue = record {
    issue = issue;
    session_total = record { input_tokens = 0; output_tokens = 0; total_tokens = 0 };
    turn_count = 0;
    steps = [];
  }

  abbrev pub placed : Outcome Workspace → Issue → ℕ → Outcome (Unit {0}) × List Step
  placed (failed e) issue duration_ms = (failed e, [])
  placed (done ws) issue duration_ms =
      hooked (if ws.created_now then cfg.hooks.after_create else none) after_create (at_start issue)
        (λ p.
          hooked cfg.hooks.before_run before_run p (λ q. with_agent (build_for llm) q duration_ms))

-- The lane is that of the issue's state at the start.
abbrev pub attempt_at :
    (String → String)
    → (String → Option String)
    → Surroundings
    → ServiceConfig
    → String
    → Option ℕ
    → Issue
    → Attempt
attempt_at to_lowercase env_var around cfg workflow initial_attempt issue = record {
  to_lowercase = to_lowercase;
  env_var = env_var;
  around = around;
  cfg = cfg;
  workflow = workflow;
  initial_attempt = initial_attempt;
  llm = effective_llm_for_state to_lowercase env_var cfg issue.state;
}

unfoldable pub run_agent_attempt :
    (String → String)
    → (String → Option String)
    → Surroundings
    → ServiceConfig
    → String
    → Option ℕ
    → ℕ
    → Issue
    → Outcome (Unit {0}) × List Step
run_agent_attempt to_lowercase env_var around cfg workflow initial_attempt duration_ms issue =
    placed (attempt_at to_lowercase env_var around cfg workflow initial_attempt issue)
      (around.ensure_for_issue issue.identifier) issue duration_ms
