-- ===== src/Daemon/Orchestrator/Runner/Examples.antt =====
-- crates/sinfonia/src/orchestrator/runner.rs at an agent that completes one turn and fails the next.
use sinfonia.Base.{List, [], ◌∷◌, true, none, if◌then◌else◌, ◌==◌}
use sinfonia.Daemon.Examples.{config, urgent}
use sinfonia.Daemon.Orchestrator.Runner.{
  attempt_at, Surroundings, Step, TurnAnswer, completed, turn_error, done, run_agent_attempt,
}
use sinfonia.Daemon.Orchestrator.Runner.Counts.{answers_in}
use sinfonia.Daemon.Orchestrator.Runner.Report.{Ended, run_agent_attempt-Ended}

abbrev next_answer : List Step → TurnAnswer
next_answer steps =
    if answers_in steps == 0
    then completed (record { input_tokens = 10; output_tokens = 5; total_tokens = 15 })
    else turn_error "model error"

abbrev around : Surroundings
around = record {
  ensure_for_issue = λ key. done (record { created_now = true });
  run_hook = λ steps kind. done tt;
  build_for = λ llm. done tt;
  start_session = λ steps. done "thread";
  run_turn = next_answer;
  fetch_states = λ steps. done ("doing" ∷ []);
  render_prompt = λ template issue attempt. done template;
  now = λ steps. 1000;
  error_text = λ e. "error";
}

run_agent_attempt-Ended_example :
    Ended
      (attempt_at (λ s. s) (λ name. none) around config "prompt" none urgent)
      urgent.id
      4200
      (run_agent_attempt (λ s. s) (λ name. none) around config "prompt" none 4200 urgent)
run_agent_attempt-Ended_example =
    run_agent_attempt-Ended (λ s. s) (λ name. none) around config "prompt" none 4200 urgent
