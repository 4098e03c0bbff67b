-- ===== src/Bridge/Feedback/Evaluate.antt =====
-- crates/sinfonia-bridge/src/feedback/mod.rs: the evaluation of a CI event, one pull request after
-- another. The template engine and the harness manifest are parameters.
pub mod Outcomes
use sinfonia.Base.{
  ℕ, String, Bool, true, false, not, Option, none, some, List, [], ◌∷◌, is_empty, concat, decimal,
  if◌then◌else◌,
}
use sinfonia.Bridge.Types.{
  Result, ok, err, other, CheckRunSummary, FailureCategory, BridgeConfig, is_green, required_failed,
}
use sinfonia.Bridge.World.{
  Environment, World, Action, ask_summary, ◌>>=◌, ◌>>◌, pure, raise, tolerate,
}
use sinfonia.Bridge.Store.{lookup_pr_ticket}
use sinfonia.Bridge.Labels.{LabelManager, ensure_base_set}
use sinfonia.Bridge.Merge
use sinfonia.Bridge.Feedback.Attempts.{AttemptDecision, continue_retrying, cap_hit, read_and_decide}
use sinfonia.Bridge.Feedback.Categorize.{categorize}
use sinfonia.Bridge.Feedback.Transition.{
  RedContext, apply_green, apply_red_below_cap, apply_cap_hit,
}

pub data CiOutcome : Type 0 where
  no_mapped_pr pending green : CiOutcome
  red : String → ℕ → ℕ → String → CiOutcome
  capped : ℕ → ℕ → CiOutcome

pub record EventTargets : Type 0 where
  pub repo : Option String
  pub head_sha : Option String
  pub pr_numbers : List ℕ
  pub run_id : Option ℕ

-- `failed.join(", ")`
unfoldable pub join : List String → String
join [] = ""
join (s ∷ []) = s
join (s ∷ t ∷ rest) = concat (s ∷ ", " ∷ join (t ∷ rest) ∷ [])

unfoldable pub render_failure_summary : List String → String
render_failure_summary failed = if is_empty failed then "(no failed checks)" else join failed

unfoldable pub render_cap_hit_comment : ℕ → ℕ → String → List String → String → String → String
render_cap_hit_comment stayed_at max category failed_checks pr_url ticket = concat (
    "Sinfonia has hit the configured retry cap ("
    ∷ decimal stayed_at
    ∷ "/"
    ∷ decimal max
    ∷ ") for "
    ∷ ticket
    ∷ " while attempting CI on "
    ∷ pr_url
    ∷ ". Last failure category: `"
    ∷ category
    ∷ "`. Failed checks: "
    ∷ join failed_checks
    ∷ ". The ticket has been moved to the bridge's blocked state for human review."
    ∷ [])

-- `render` is `render_failure_comment`, template first; `fetch_digest` is `try_fetch_manifest`, then
-- `build_failure_digest`, for a repository, a run and the address of the pull request.
module _ (env : Environment) (cfg : BridgeConfig) (labels : LabelManager)
    (render : String → ℕ → ℕ → String → List String → String → String → String → String)
    (fetch_digest : String → ℕ → String → World → Option String × World) where
  -- The text of the failure field and the excerpt of the comment
  abbrev pub with_digest : String → String → Option String → String × String
  with_digest summary excerpt none = (summary, excerpt)
  with_digest summary excerpt (some digest) = (digest, digest)

  abbrev pub fetched : String → ℕ → String → String → String → Action (String × String)
  fetched repo run_id pr_url summary excerpt w =
      let (d, w') = fetch_digest repo run_id pr_url w in (ok (with_digest summary excerpt d), w')

  unfoldable pub enrich : String → Option ℕ → String → String → String → Action (String × String)
  enrich repo none pr_url summary excerpt = pure (summary, excerpt)
  enrich repo (some run_id) pr_url summary excerpt =
      if cfg.feedback_loop.harness_manifest.ingest
      then fetched repo run_id pr_url summary excerpt
      else pure (summary, excerpt)

  -- What the decision on the attempt does
  unfoldable pub apply_decision :
      RedContext → FailureCategory → ℕ → String → AttemptDecision → Action CiOutcome
  apply_decision ctx category max_attempts failure_summary (continue_retrying next) = do
    apply_red_below_cap env labels ctx category next cfg.custom_fields
        (render cfg.feedback_loop.failure_comment_template next max_attempts category.name
          ctx.failed_checks ctx.failure_log_excerpt ctx.pr_url ctx.ticket_identifier)
        failure_summary
    pure (red category.name next max_attempts category.target_state)
  apply_decision ctx category max_attempts failure_summary (cap_hit stayed_at max) = do
    apply_cap_hit env labels ctx (cap_hit stayed_at max) cfg.feedback_loop.blocked_state (
        render_cap_hit_comment stayed_at max category.name ctx.failed_checks ctx.pr_url
          ctx.ticket_identifier)
    pure (capped stayed_at max)

  -- A configuration has a category: without one the source panics.
  unfoldable pub red_path :
      String
      → ℕ
      → String
      → CheckRunSummary
      → Option ℕ
      → ℕ × ℕ × AttemptDecision
      → Option FailureCategory
      → Action CiOutcome
  red_path repo pr_number ticket_id summary run_id (prior, max_attempts, decision) none =
      raise (other "panic: no failure category")
  red_path repo pr_number ticket_id summary run_id (prior, max_attempts, decision) (some category) =
      do
        let pr_url = concat ("https://github.com/" ∷ repo ∷ "/pull/" ∷ decimal pr_number ∷ [])
        texts ← enrich repo run_id pr_url (render_failure_summary summary.failed) (
            concat
              ("(log excerpt not yet fetched; see PR " ∷ pr_url ∷ "/checks for full logs)" ∷ []))
        outcome ←
            apply_decision
              (record {
                repo = repo;
                pr_number = pr_number;
                pr_url = pr_url;
                ticket_id = ticket_id;
                ticket_identifier = ticket_id;
                failed_checks = summary.failed;
                failure_log_excerpt = texts.1;
              })
              category max_attempts texts.0 decision
        tolerate (
            if cfg.feedback_loop.merge_coordinator.enabled
            then Merge.on_ci_red env cfg labels repo pr_number
            else pure tt)
        pure outcome

  unfoldable pub green_path : String → ℕ → String → Action CiOutcome
  green_path repo pr_number ticket_id = do
    apply_green env labels repo pr_number ticket_id cfg.feedback_loop.awaiting_review_state
    tolerate (
        if cfg.feedback_loop.merge_coordinator.enabled
        then Merge.on_ci_green env cfg labels repo pr_number
        else pure tt)
    pure green

  unfoldable pub evaluate_ticket :
      String → ℕ → CheckRunSummary → Option ℕ → Option String → Action CiOutcome
  evaluate_ticket repo pr_number summary run_id none = pure no_mapped_pr
  evaluate_ticket repo pr_number summary run_id (some ticket_id) =
      if is_green summary cfg.feedback_loop.required_checks
      then green_path repo pr_number ticket_id
      else if not (required_failed summary cfg.feedback_loop.required_checks)
      then pure pending
      else (read_and_decide env ticket_id cfg.custom_fields.attempt_count
            cfg.custom_fields.max_attempts_override cfg.feedback_loop.max_attempts
          >>= λ decided.
              red_path repo pr_number ticket_id summary run_id decided
                (categorize summary.failed cfg.feedback_loop.failure_categories))

  unfoldable pub evaluate_one_pr : String → ℕ → CheckRunSummary → Option ℕ → Action CiOutcome
  evaluate_one_pr repo pr_number summary run_id = do
    ticket ← lookup_pr_ticket env repo pr_number
    evaluate_ticket repo pr_number summary run_id ticket

  unfoldable pub evaluate_all :
      String → CheckRunSummary → Option ℕ → List ℕ → Action (List CiOutcome)
  evaluate_all repo summary run_id [] = pure []
  evaluate_all repo summary run_id (pr_number ∷ rest) = do
    outcome ← evaluate_one_pr repo pr_number summary run_id
    outcomes ← evaluate_all repo summary run_id rest
    pure (outcome ∷ outcomes)

  unfoldable pub evaluate_summary :
      String → List ℕ → Option ℕ → CheckRunSummary → Action (List CiOutcome)
  evaluate_summary repo pr_numbers run_id summary =
      if summary.any_pending
      then pure (pending ∷ [])
      else (tolerate (ensure_base_set env labels repo)
          >> evaluate_all repo summary run_id pr_numbers)

  unfoldable pub evaluate_numbers : String → String → List ℕ → Option ℕ → Action (List CiOutcome)
  evaluate_numbers repo head_sha pr_numbers run_id =
      if is_empty pr_numbers
      then pure (no_mapped_pr ∷ [])
      else (ask_summary env repo head_sha >>= evaluate_summary repo pr_numbers run_id)

  -- Behind `extract_targets`
  unfoldable pub evaluate_ci : EventTargets → Action (List CiOutcome)
  evaluate_ci targets = elim targets.repo [
    | none ↦ pure (no_mapped_pr ∷ [])
    | some repo ↦ elim targets.head_sha [
      | none ↦ pure (no_mapped_pr ∷ [])
      | some head_sha ↦ evaluate_numbers repo head_sha targets.pr_numbers targets.run_id
    ]
  ]
