-- ===== src/Daemon/Orchestrator/Runner/Counts.antt =====
-- What the steps of an attempt say of its turns and tokens.
use sinfonia.Base.{ℕ, ◌+◌, ◌≤◌, ◌≡◌, ◌∙◌, refl, ap, List, [], ◌∷◌, ◌++◌, arith}
use sinfonia.Daemon.Orchestrator.AgentEvents.{TokenUsage}
use sinfonia.Daemon.Orchestrator.Runner.{
  Outcome, done, failed, completed, broken, Step, ran_turn, accumulate_usage, Progress,
}

-- The turns that were run, those that the agent answered, and the tokens of those that it completed
abbrev pub is_run : Step → ℕ
is_run (ran_turn turn prompt answer) = 1
is_run _ = 0

abbrev pub is_answered : Step → ℕ
is_answered (ran_turn turn prompt (broken e)) = 0
is_answered (ran_turn turn prompt _) = 1
is_answered _ = 0

abbrev pub add_usage : Step → TokenUsage → TokenUsage
add_usage (ran_turn turn prompt (completed usage)) total = accumulate_usage total usage
add_usage _ total = total

abbrev pub runs_in : List Step → ℕ
runs_in [] = 0
runs_in (s ∷ rest) = is_run s + runs_in rest

abbrev pub answers_in : List Step → ℕ
answers_in [] = 0
answers_in (s ∷ rest) = is_answered s + answers_in rest

abbrev pub usage_from : TokenUsage → List Step → TokenUsage
usage_from total [] = total
usage_from total (s ∷ rest) = usage_from (add_usage s total) rest

abbrev pub no_usage : TokenUsage
no_usage = record { input_tokens = 0; output_tokens = 0; total_tokens = 0 }

runs_in-snoc : (xs : List Step) (s : Step) → runs_in (xs ++ s ∷ []) ≡ runs_in xs + is_run s
runs_in-snoc [] s = omega arith
runs_in-snoc (x ∷ xs) s = omega (arith, runs_in-snoc xs s)

answers_in-snoc :
    (xs : List Step) (s : Step) → answers_in (xs ++ s ∷ []) ≡ answers_in xs + is_answered s
answers_in-snoc [] s = omega arith
answers_in-snoc (x ∷ xs) s = omega (arith, answers_in-snoc xs s)

usage_from-snoc :
    (t : TokenUsage) (xs : List Step) (s : Step)
    → usage_from t (xs ++ s ∷ []) ≡ add_usage s (usage_from t xs)
usage_from-snoc t [] s = refl
usage_from-snoc t (x ∷ xs) s = usage_from-snoc (add_usage x t) xs s

-- The progress tells what the steps say, of at most so many turns.
abbrev pub Told : ℕ → ℕ → TokenUsage → List Step → Type 0
Told bound turns total steps =
    (answers_in steps ≡ turns) × (usage_from no_usage steps ≡ total) × (runs_in steps ≤ bound)

pub Told-snoc :
    (bound turns : ℕ) (total : TokenUsage) (steps : List Step) (s : Step)
    → Told bound turns total steps
    → Told (bound + is_run s) (turns + is_answered s) (add_usage s total) (steps ++ s ∷ [])
Told-snoc bound turns total steps s (a, u, r) = (
  omega (arith, answers_in-snoc steps s, a),
  usage_from-snoc no_usage steps s ∙ ap (add_usage s) u,
  omega (arith, runs_in-snoc steps s, r),
)

-- A step that is no turn changes nothing of it.
pub Told-other :
    (bound turns : ℕ) (total : TokenUsage) (steps : List Step) (s : Step)
    → is_run s ≡ 0
    → is_answered s ≡ 0
    → add_usage s total ≡ total
    → Told bound turns total steps
    → Told bound turns total (steps ++ s ∷ [])
Told-other bound turns total steps s i j k (a, u, r) = (
  omega (arith, answers_in-snoc steps s, a, j),
  usage_from-snoc no_usage steps s ∙ ap (add_usage s) u ∙ k,
  omega (arith, runs_in-snoc steps s, r, i),
)

-- Where a turn went well, its number is counted.
abbrev pub Next : ℕ → Outcome (Unit {0}) × Progress → Type 0
Next turn (done _, q) = q.turn_count ≡ turn
Next turn (failed e, q) = Unit
