-- ===== src/Bridge/Merge.antt =====
-- crates/sinfonia-bridge/src/merge/mod.rs: the merge coordinator. `kick` is a loop in the source:
-- here it takes fuel, and is given enough of it by the rows of the repository.
use sinfonia.Base.{
  ℕ, zero, suc, ◌+◌, String, Bool, true, false, ◌||◌, not, Option, none, some, List, [], ◌∷◌, leb,
  str_eq, find, length, filter, is_empty, member, unwrap_or, set_insert, concat, decimal, map,
  StringSet, if◌then◌else◌,
}
pub mod Cycles
pub mod Events
pub mod Gate
pub mod Queue
pub mod Stable
pub mod Termination
use Prim.Native.String.{compare}
use sinfonia.Base.Order.{sort_by}
use sinfonia.Domain.{string}
use sinfonia.Bridge.Types.{
  Result, ok, err, PrLanding, CheckRunSummary, UpdateBranchOutcome, accepted, stale, conflict,
  MergeOutcome, merged, not_mergeable, sha_mismatch, LandingRow, LandingStatus, updating,
  awaiting_ci, merging, BridgeConfig, MergeCoordinatorSection, is_green,
}
use sinfonia.Bridge.World.{
  Environment, World, Action, perform, ask_summary, ask_pull_request, ask_update_branch, ask_merge,
  ◌>>=◌, ◌>>◌, pure, tolerate, write_custom_field, transition_issue, post_pr_comment,
}
use sinfonia.Bridge.Store.{
  lookup_pr_ticket, enqueue_landing, get_landing, advance_landing, dequeue_landing, list_landings,
}
use sinfonia.Bridge.Labels.{LabelManager, needs_fixes, awaiting_review, apply, remove}

pub data Mergeability : Type 0 where
  ready behind dirty wait : Mergeability

unfoldable pub classify : String → Mergeability
classify state =
    if str_eq state "behind"
    then behind
    else if str_eq state "dirty"
    then dirty
    else if str_eq state "draft" || str_eq state "unknown"
    then wait
    else ready

abbrev pub rows_of : String → List LandingRow → ℕ
rows_of repo rows = length (filter (λ r. str_eq r.repo repo) rows)

module _ (env : Environment) (cfg : BridgeConfig) (labels : LabelManager) where
  abbrev pub merge_cfg : MergeCoordinatorSection
  merge_cfg = cfg.feedback_loop.merge_coordinator

  unfoldable pub park : LandingRow → String → Action (Unit {0})
  park landing reason = do
    perform env (
        write_custom_field landing.ticket_id cfg.custom_fields.last_failure_log
          (string (concat ("Merge coordinator parked this PR: " ∷ reason ∷ []))))
    perform env (transition_issue landing.ticket_id cfg.feedback_loop.needs_fixes_state)
    tolerate (apply env labels landing.repo landing.pr_number needs_fixes)
    tolerate (remove env labels landing.repo landing.pr_number awaiting_review)
    tolerate (
        perform env (
          post_pr_comment landing.repo landing.pr_number (
            concat (
              "Sinfonia's merge coordinator could not land this PR: " ∷ reason
              ∷ ". The ticket has been moved to **" ∷ cfg.feedback_loop.needs_fixes_state
              ∷ "** so the agent loop can pick it back up; re-approval will re-enqueue it once the issue is resolved."
              ∷ []))))
    dequeue_landing env landing.repo landing.pr_number

  -- The landing stays, and waits for a webhook.
  abbrev pub rearm : LandingRow → LandingStatus → String → ℕ → Action Bool
  rearm landing status sha attempt = do
    advance_landing env landing.repo landing.pr_number status sha attempt
    pure false

  -- The landing is over.
  abbrev pub finish : LandingRow → Action Bool
  finish landing = do dequeue_landing env landing.repo landing.pr_number; pure true

  abbrev pub park_it : LandingRow → String → Action Bool
  park_it landing reason = do park landing reason; pure true

  unfoldable pub after_update : LandingRow → PrLanding → UpdateBranchOutcome → Action Bool
  after_update landing pr accepted = rearm landing updating pr.head_sha (landing.attempt + 1)
  after_update landing pr stale = rearm landing awaiting_ci pr.head_sha landing.attempt
  after_update landing pr conflict =
      park_it landing "branch could not be updated against the base (conflict)"

  unfoldable pub advance_behind : LandingRow → PrLanding → Action Bool
  advance_behind landing pr =
      if leb merge_cfg.max_update_cycles landing.attempt
      then park_it landing (
          concat (
            "exceeded max_update_cycles ("
            ∷ decimal merge_cfg.max_update_cycles
            ∷ ") integrating the base branch"
            ∷ []))
      else do
        outcome ← ask_update_branch env landing.repo landing.pr_number pr.head_sha
        after_update landing pr outcome

  unfoldable pub after_merge : LandingRow → PrLanding → MergeOutcome → Action Bool
  after_merge landing pr (merged sha) = finish landing
  after_merge landing pr not_mergeable = rearm landing awaiting_ci pr.head_sha landing.attempt
  after_merge landing pr sha_mismatch = rearm landing awaiting_ci pr.head_sha landing.attempt

  unfoldable pub merge_green : LandingRow → PrLanding → Action Bool
  merge_green landing pr = do
    advance_landing env landing.repo landing.pr_number merging pr.head_sha landing.attempt
    outcome ← ask_merge env landing.repo landing.pr_number merge_cfg.merge_method pr.head_sha
    after_merge landing pr outcome

  unfoldable pub after_summary : LandingRow → PrLanding → CheckRunSummary → Action Bool
  after_summary landing pr summary =
      if summary.any_pending
      then rearm landing awaiting_ci pr.head_sha landing.attempt
      else if not (is_green summary cfg.feedback_loop.required_checks)
      then finish landing
      else merge_green landing pr

  unfoldable pub advance_ready : LandingRow → PrLanding → Action Bool
  advance_ready landing pr = do
    summary ← ask_summary env landing.repo pr.head_sha
    after_summary landing pr summary

  unfoldable pub advance_open : LandingRow → PrLanding → Mergeability → Action Bool
  advance_open landing pr dirty = park_it landing "merge conflict with the base branch (DIRTY)"
  advance_open landing pr behind = advance_behind landing pr
  advance_open landing pr wait = rearm landing awaiting_ci pr.head_sha landing.attempt
  advance_open landing pr ready = advance_ready landing pr

  unfoldable pub after_read : LandingRow → PrLanding → Action Bool
  after_read landing pr =
      if pr.merged
      then finish landing
      else if str_eq pr.state "closed"
      then finish landing
      else advance_open landing pr (classify pr.mergeable_state)

  unfoldable pub advance_one : LandingRow → Action Bool
  advance_one landing = do
    pr ← ask_pull_request env landing.repo landing.pr_number
    after_read landing pr

  unfoldable pub head_of_queue : String → Action (Option LandingRow)
  head_of_queue repo = do
    landings ← list_landings env
    pure (find (λ l. str_eq l.repo repo) landings)

  abbrev pub go_on : Option LandingRow → Action Bool
  go_on none = pure false
  go_on (some head) = advance_one head

  -- One turn of the loop: whether it goes on.
  unfoldable pub kick_once : String → Action Bool
  kick_once repo = do head ← head_of_queue repo; go_on head

  -- After a turn the loop goes on where the head is gone, and stops otherwise.
  abbrev pub after_turn : (World → Option World) → Result Bool → World → Option World
  after_turn again (ok true) w = again w
  after_turn again (ok false) w = some w
  after_turn again (err e) w = some w

  unfoldable pub kick_within : ℕ → String → World → Option World
  kick_within zero repo w = none
  kick_within (suc fuel) repo w =
      let (r, w') = kick_once repo w in after_turn (kick_within fuel repo) r w'

  unfoldable pub kick : String → Action (Unit {0})
  kick repo w =
      (ok tt, unwrap_or (kick_within (suc (rows_of repo w.tables.landing_queue)) repo w) w)

  unfoldable pub enqueue_pull_request : String → ℕ → String → PrLanding → Action (Unit {0})
  enqueue_pull_request repo pr_number ticket_id pr =
      if pr.merged
      then pure tt
      else do enqueue_landing env repo pr_number ticket_id pr.head_sha; kick repo

  abbrev pub enqueue_ticket : String → ℕ → Option String → Action (Unit {0})
  enqueue_ticket repo pr_number none = pure tt
  enqueue_ticket repo pr_number (some ticket_id) = do
    pr ← ask_pull_request env repo pr_number
    enqueue_pull_request repo pr_number ticket_id pr

  unfoldable pub enqueue_on_approval : String → ℕ → Action (Unit {0})
  enqueue_on_approval repo pr_number =
      if not merge_cfg.enabled
      then pure tt
      else do ticket ← lookup_pr_ticket env repo pr_number; enqueue_ticket repo pr_number ticket

  abbrev pub kick_queued : String → Option LandingRow → Action (Unit {0})
  kick_queued repo none = pure tt
  kick_queued repo (some landing) = kick repo

  unfoldable pub on_ci_green : String → ℕ → Action (Unit {0})
  on_ci_green repo pr_number =
      if not merge_cfg.enabled
      then pure tt
      else do landing ← get_landing env repo pr_number; kick_queued repo landing

  abbrev pub relinquish : String → ℕ → Option LandingRow → Action (Unit {0})
  relinquish repo pr_number none = pure tt
  relinquish repo pr_number (some landing) = dequeue_landing env repo pr_number

  unfoldable pub on_ci_red : String → ℕ → Action (Unit {0})
  on_ci_red repo pr_number =
      if not merge_cfg.enabled
      then pure tt
      else do landing ← get_landing env repo pr_number; relinquish repo pr_number landing; kick repo

  unfoldable pub reconcile_pull_request : LandingRow → PrLanding → Action (Unit {0})
  reconcile_pull_request l pr =
      if pr.merged || str_eq pr.state "closed"
      then dequeue_landing env l.repo l.pr_number
      else if not (str_eq pr.head_sha l.head_sha)
      then advance_landing env l.repo l.pr_number awaiting_ci pr.head_sha l.attempt >> pure tt
      else pure tt

  -- A pull request that cannot be read is left as it is.
  abbrev pub reconcile_read : LandingRow → Result PrLanding → Action (Unit {0})
  reconcile_read l (err e) = pure tt
  reconcile_read l (ok pr) = reconcile_pull_request l pr

  unfoldable pub reconcile_landing : LandingRow → Action (Unit {0})
  reconcile_landing l w =
      let (r, w') = ask_pull_request env l.repo l.pr_number w in reconcile_read l r w'

  abbrev pub each : {A : Type 0} → (A → Action (Unit {0})) → List A → Action (Unit {0})
  each f [] = pure tt
  each f (x ∷ xs) = do f x; each f xs

  -- The repositories of the landings, each once; the `BTreeSet` gives them in order.
  abbrev pub repos_of : List LandingRow → StringSet
  repos_of [] = []
  repos_of (l ∷ ls) = set_insert l.repo (repos_of ls)

  unfoldable pub reconcile_all : List LandingRow → Action (Unit {0})
  reconcile_all landings =
      if is_empty landings
      then pure tt
      else do each reconcile_landing landings; each kick (sort_by compare (repos_of landings))

  unfoldable pub reconcile_on_boot : Action (Unit {0})
  reconcile_on_boot =
      if not merge_cfg.enabled
      then pure tt
      else do landings ← list_landings env; reconcile_all landings
