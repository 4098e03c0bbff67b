-- ===== src/Bridge/Feedback/Transition.antt =====
-- crates/sinfonia-bridge/src/feedback/transition.rs: the writes that follow a CI result.
pub mod Writes
use sinfonia.Base.{ℕ, String, Bool, Option, none, some, List, if◌then◌else◌}
use sinfonia.Domain.{string, number}
use sinfonia.Bridge.Types.{other, FailureCategory, CustomFieldsSection}
use sinfonia.Bridge.World.{
  Environment, Action, perform, ◌>>=◌, ◌>>◌, pure, raise, tolerate, write_custom_field,
  transition_issue, post_pr_comment,
}
use sinfonia.Bridge.Labels.{
  LabelManager, awaiting_review, in_progress, needs_fixes, cap_hit as cap_hit_label, failure, apply,
  remove,
}
use sinfonia.Bridge.Feedback.Attempts.{AttemptDecision, continue_retrying, cap_hit, f64_of}

pub record RedContext : Type 0 where
  pub repo : String
  pub pr_number : ℕ
  pub pr_url : String
  pub ticket_id : String
  pub ticket_identifier : String
  pub failed_checks : List String
  pub failure_log_excerpt : String

module _ (env : Environment) (labels : LabelManager) where
  abbrev pub promote : String → Option String → Action (Unit {0})
  promote ticket_id none = pure tt
  promote ticket_id (some state) = perform env (transition_issue ticket_id state)

  unfoldable pub apply_green : String → ℕ → String → Option String → Action (Unit {0})
  apply_green repo pr_number ticket_id awaiting_review_state = do
    promote ticket_id awaiting_review_state
    apply env labels repo pr_number awaiting_review
    remove env labels repo pr_number in_progress
    remove env labels repo pr_number needs_fixes

  -- Labels and comment of a red run, whose failures are logged
  abbrev pub red_labels : String → ℕ → String → String → Action (Unit {0})
  red_labels repo pr_number category rendered_comment = do
    tolerate (apply env labels repo pr_number needs_fixes)
    tolerate (apply env labels repo pr_number (failure category))
    tolerate (remove env labels repo pr_number in_progress)
    tolerate (remove env labels repo pr_number awaiting_review)
    tolerate (perform env (post_pr_comment repo pr_number rendered_comment))

  -- Those of a cap hit
  abbrev pub cap_labels : String → ℕ → String → Action (Unit {0})
  cap_labels repo pr_number rendered_comment = do
    tolerate (apply env labels repo pr_number cap_hit_label)
    tolerate (remove env labels repo pr_number in_progress)
    tolerate (remove env labels repo pr_number needs_fixes)
    tolerate (perform env (post_pr_comment repo pr_number rendered_comment))

  unfoldable pub apply_red_below_cap :
      RedContext → FailureCategory → ℕ → CustomFieldsSection → String → String → Action (Unit {0})
  apply_red_below_cap ctx category next_attempt custom_fields rendered_comment failure_summary = do
    perform env
        (write_custom_field ctx.ticket_id custom_fields.last_failure_log (string failure_summary))
    perform env
        (write_custom_field ctx.ticket_id custom_fields.failure_category (string category.name))
    perform env (
        write_custom_field ctx.ticket_id custom_fields.attempt_count (number (f64_of next_attempt)))
    perform env (transition_issue ctx.ticket_id category.target_state)
    red_labels ctx.repo ctx.pr_number category.name rendered_comment

  unfoldable pub apply_cap_hit : RedContext → AttemptDecision → String → String → Action (Unit {0})
  apply_cap_hit ctx (continue_retrying next) blocked_state rendered_comment =
      raise (other "apply_cap_hit called with Continue decision (caller bug)")
  apply_cap_hit ctx (cap_hit stayed_at max) blocked_state rendered_comment = do
    perform env (transition_issue ctx.ticket_id blocked_state)
    cap_labels ctx.repo ctx.pr_number rendered_comment
