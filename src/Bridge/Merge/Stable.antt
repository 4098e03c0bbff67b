-- ===== src/Bridge/Merge/Stable.antt =====
-- What a condition must satisfy for the work on one landing to keep it. `I` holds while the landing
-- is worked on, `D` once its row is gone.
use sinfonia.Base.{
  ℕ, ◌+◌, ◌<◌, ◌≡◌, refl, String, Bool, true, false, not, ◌⊎◌, inl, inr, leb, str_eq, arith,
}
use sinfonia.Bridge.Types.{
  PrLanding, UpdateBranchOutcome, accepted, stale, conflict, MergeOutcome, merged, not_mergeable,
  sha_mismatch, LandingRow, LandingStatus, awaiting_ci, merging, updating, BridgeConfig, is_green,
}
use sinfonia.Bridge.World.{Environment, Call, World, note, merge_pr}
use sinfonia.Bridge.World.Triple.{
  Triple, Preserves, bind_triple, pure_triple, tolerate_triple, if_triple, perform_triple,
  ask_pull_request-Preserves, ask_update_branch-Preserves, ask_summary-Preserves,
  ask_merge-Preserves,
}
use sinfonia.Bridge.Store.{advance_landing, dequeue_landing}
use sinfonia.Bridge.Labels.{
  LabelManager, BridgeLabel, in_progress, awaiting_review, needs_fixes, cap_hit, budget_exceeded,
  failure, apply, remove, ensure_category, ensure_failure, ensure_one,
}
use sinfonia.Bridge.Merge.{
  Mergeability, ready, behind, dirty, wait, classify, park, rearm, finish, park_it, after_update,
  advance_behind, after_merge, merge_green, after_summary, advance_ready, advance_open, after_read,
  advance_one,
}

-- A merge, the one call that lands code
unfoldable pub is_merge : Call → Bool
is_merge (merge_pr repo pr method sha) = true
is_merge _ = false

-- A condition that calls other than a merge keep
abbrev pub IsQuiet : (World → Type 0) → Type 0
IsQuiet I = (c : Call) → is_merge c ≡ false → (w : World) → I w → I (note w c)

-- The number of update cycles that the work on a landing may write
abbrev pub IsNext : BridgeConfig → LandingRow → ℕ → Type 0
IsNext cfg l a =
    (a ≡ l.attempt)
    ⊎ ((a ≡ l.attempt + 1) × (l.attempt < cfg.feedback_loop.merge_coordinator.max_update_cycles))

-- `again` is the answer of the work: whether the row is gone.
abbrev pub After : (World → Type 0) → (World → Type 0) → Bool → World → Type 0
After I D true = D
After I D false = I

module _ (env : Environment) (labels : LabelManager) where
  -- Labels make no merge.
  pub ensure_failure-Preserves :
      {I : World → Type 0} (repo category : String)
      → IsQuiet I
      → Preserves I (ensure_failure env labels repo category)
  unfolding ensure_failure ensure_one is_merge
  ensure_failure-Preserves repo category quiet =
      if_triple (not labels.enabled) (λ _. pure_triple tt)
        (λ _. tolerate_triple (perform_triple env _ (quiet _ refl) (quiet _ refl)))

  ensure_category-Preserves :
      {I : World → Type 0} (repo : String) (label : BridgeLabel)
      → IsQuiet I
      → Preserves I (ensure_category env labels repo label)
  ensure_category-Preserves repo in_progress quiet = pure_triple tt
  ensure_category-Preserves repo awaiting_review quiet = pure_triple tt
  ensure_category-Preserves repo needs_fixes quiet = pure_triple tt
  ensure_category-Preserves repo cap_hit quiet = pure_triple tt
  ensure_category-Preserves repo budget_exceeded quiet = pure_triple tt
  ensure_category-Preserves repo (failure category) quiet =
      ensure_failure-Preserves repo category quiet

  pub apply-Preserves :
      {I : World → Type 0} (repo : String) (pr : ℕ) (label : BridgeLabel)
      → IsQuiet I
      → Preserves I (apply env labels repo pr label)
  unfolding apply is_merge
  apply-Preserves {I} repo pr label quiet =
      if_triple (not labels.enabled) (λ _. pure_triple tt)
        (λ _.
          bind_triple (ensure_category-Preserves repo label quiet)
            (λ _. perform_triple env _ (quiet _ refl) (quiet _ refl)))

  pub remove-Preserves :
      {I : World → Type 0} (repo : String) (pr : ℕ) (label : BridgeLabel)
      → IsQuiet I
      → Preserves I (remove env labels repo pr label)
  unfolding remove is_merge
  remove-Preserves {I} repo pr label quiet =
      if_triple (not labels.enabled) (λ _. pure_triple tt)
        (λ _. perform_triple env _ (quiet _ refl) (quiet _ refl))

pub record IsStable (env : Environment) (cfg : BridgeConfig) (labels : LabelManager)
    (l : LandingRow) (I D : World → Type 0) : Type 0 where
  pub quiet : IsQuiet I
  pub advance :
      (status : LandingStatus) (sha : String) (a : ℕ)
      → IsNext cfg l a
      → Preserves I (advance_landing env l.repo l.pr_number status sha a)
  pub dequeue : Triple I (dequeue_landing env l.repo l.pr_number) (λ _. D) I

module _ (env : Environment) (cfg : BridgeConfig) (labels : LabelManager) (l : LandingRow)
    (I D : World → Type 0) (h : IsStable env cfg labels l I D) where
  park-Stable : (reason : String) → Triple I (park env cfg labels l reason) (λ _. D) I
  unfolding park is_merge
  park-Stable reason = bind_triple (perform_triple env _ (h.quiet _ refl) (h.quiet _ refl)) (λ _.
      bind_triple (perform_triple env _ (h.quiet _ refl) (h.quiet _ refl)) (λ _.
        bind_triple (tolerate_triple (apply-Preserves env labels _ _ _ h.quiet)) (λ _.
          bind_triple (tolerate_triple (remove-Preserves env labels _ _ _ h.quiet)) (λ _.
            bind_triple (tolerate_triple (perform_triple env _ (h.quiet _ refl) (h.quiet _ refl)))
              (λ _. h.dequeue)))))

  pub rearm-Stable :
      (status : LandingStatus) (sha : String) (a : ℕ)
      → IsNext cfg l a
      → Triple I (rearm env cfg labels l status sha a) (After I D) I
  rearm-Stable status sha a next =
      bind_triple (h.advance status sha a next) (λ _. pure_triple false)

  pub finish-Stable : Triple I (finish env cfg labels l) (After I D) I
  finish-Stable = bind_triple h.dequeue (λ _. pure_triple true)

  park_it-Stable : (reason : String) → Triple I (park_it env cfg labels l reason) (After I D) I
  park_it-Stable reason = bind_triple (park-Stable reason) (λ _. pure_triple true)

  after_update-Stable :
      (pr : PrLanding) (outcome : UpdateBranchOutcome)
      → l.attempt < cfg.feedback_loop.merge_coordinator.max_update_cycles
      → Triple I (after_update env cfg labels l pr outcome) (After I D) I
  unfolding after_update
  after_update-Stable pr accepted below =
      rearm-Stable updating pr.head_sha (l.attempt + 1) (inr (refl, below))
  after_update-Stable pr stale below = rearm-Stable awaiting_ci pr.head_sha l.attempt (inl refl)
  after_update-Stable pr conflict below = park_it-Stable _

  advance_behind-Stable :
      (pr : PrLanding) → Triple I (advance_behind env cfg labels l pr) (After I D) I
  unfolding advance_behind is_merge
  advance_behind-Stable pr =
      if_triple (leb cfg.feedback_loop.merge_coordinator.max_update_cycles l.attempt)
        (λ _. park_it-Stable _)
        (λ below.
          bind_triple
            (ask_update_branch-Preserves env l.repo l.pr_number pr.head_sha (h.quiet _ refl))
            (λ outcome. after_update-Stable pr outcome (ground (arith, below))))

  pub after_merge-Stable :
      (pr : PrLanding) (outcome : MergeOutcome)
      → Triple I (after_merge env cfg labels l pr outcome) (After I D) I
  unfolding after_merge
  after_merge-Stable pr (merged sha) = finish-Stable
  after_merge-Stable pr not_mergeable = rearm-Stable awaiting_ci pr.head_sha l.attempt (inl refl)
  after_merge-Stable pr sha_mismatch = rearm-Stable awaiting_ci pr.head_sha l.attempt (inl refl)

  -- From the checks of the head to the merge, where the condition bears the merge too
  pub advance_ready-Stable :
      ((repo : String) (pr : ℕ) (method sha : String) (w : World)
        → I w
        → I (note w (merge_pr repo pr method sha)))
      → (pr : PrLanding) → Triple I (advance_ready env cfg labels l pr) (After I D) I
  unfolding advance_ready after_summary merge_green is_merge
  advance_ready-Stable bears pr =
      bind_triple (ask_summary-Preserves env l.repo pr.head_sha (h.quiet _ refl)) (λ summary.
        if_triple summary.any_pending
          (λ _. rearm-Stable awaiting_ci pr.head_sha l.attempt (inl refl))
          (λ _.
            if_triple (not (is_green summary cfg.feedback_loop.required_checks))
              (λ _. finish-Stable)
              (λ _. bind_triple (h.advance merging pr.head_sha l.attempt (inl refl)) (λ _.
                bind_triple
                  (ask_merge-Preserves env l.repo l.pr_number
                    cfg.feedback_loop.merge_coordinator.merge_method pr.head_sha (bears _ _ _ _))
                  (λ outcome. after_merge-Stable pr outcome)))))

  module _
      (land : (pr : PrLanding) → Triple I (advance_ready env cfg labels l pr) (After I D) I) where
    advance_open-Stable :
        (pr : PrLanding) (m : Mergeability)
        → Triple I (advance_open env cfg labels l pr m) (After I D) I
    unfolding advance_open
    advance_open-Stable pr ready = land pr
    advance_open-Stable pr behind = advance_behind-Stable pr
    advance_open-Stable pr dirty = park_it-Stable _
    advance_open-Stable pr wait = rearm-Stable awaiting_ci pr.head_sha l.attempt (inl refl)

    pub advance_one-Stable : Triple I (advance_one env cfg labels l) (After I D) I
    unfolding advance_one after_read is_merge
    advance_one-Stable =
        bind_triple (ask_pull_request-Preserves env l.repo l.pr_number (h.quiet _ refl)) (λ pr.
          if_triple pr.merged (λ _. finish-Stable)
            (λ _.
              if_triple (str_eq pr.state "closed") (λ _. finish-Stable)
                (λ _. advance_open-Stable pr (classify pr.mergeable_state))))
