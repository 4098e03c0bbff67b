-- ===== src/Bridge/Labels.antt =====
-- crates/sinfonia-bridge/src/labels.rs: the labels on a pull request, their names, and the manager
-- that writes them where `manage_labels` is set.
use sinfonia.Base.{ℕ, String, Bool, not, List, [], ◌∷◌, unwrap_or, concat, if◌then◌else◌}
use sinfonia.Bridge.Types.{LabelAliases}
use sinfonia.Bridge.World.{
  Environment, Action, perform, ◌>>◌, pure, tolerate, ensure_label, apply_label_to_pr,
  remove_label_from_pr,
}

pub data BridgeLabel : Type 0 where
  in_progress awaiting_review needs_fixes cap_hit budget_exceeded : BridgeLabel
  failure : String → BridgeLabel

unfoldable pub full_name : String → LabelAliases → BridgeLabel → String
full_name prefix aliases in_progress =
    unwrap_or aliases.in_progress (concat (prefix ∷ ":in-progress" ∷ []))
full_name prefix aliases awaiting_review =
    unwrap_or aliases.awaiting_review (concat (prefix ∷ ":awaiting-review" ∷ []))
full_name prefix aliases needs_fixes =
    unwrap_or aliases.needs_fixes (concat (prefix ∷ ":needs-fixes" ∷ []))
full_name prefix aliases cap_hit = unwrap_or aliases.cap_hit (concat (prefix ∷ ":cap-hit" ∷ []))
full_name prefix aliases budget_exceeded =
    unwrap_or aliases.budget_exceeded (concat (prefix ∷ ":budget-exceeded" ∷ []))
full_name prefix aliases (failure category) =
    concat
      (unwrap_or aliases.failure_prefix (concat (prefix ∷ ":failure" ∷ [])) ∷ ":" ∷ category ∷ [])

unfoldable pub default_color : BridgeLabel → String
default_color in_progress = "1f6feb"
default_color awaiting_review = "0e8a16"
default_color needs_fixes = "fbca04"
default_color cap_hit = "d73a4a"
default_color budget_exceeded = "b60205"
default_color (failure category) = "eeeeee"

unfoldable pub description : BridgeLabel → String
description in_progress = "Sinfonia agent is working on this PR."
description awaiting_review = "CI is green; awaiting human review."
description needs_fixes = "CI failed; Sinfonia will retry."
description cap_hit = "Attempt cap hit; routed to human review."
description budget_exceeded = "Budget cap exceeded; routed to human review."
description (failure category) = "Failure category tag (set by Sinfonia bridge)."

abbrev pub base_set : List BridgeLabel
base_set = in_progress ∷ awaiting_review ∷ needs_fixes ∷ cap_hit ∷ budget_exceeded ∷ []

pub record LabelManager : Type 0 where
  pub enabled : Bool
  pub prefix : String
  pub aliases : LabelAliases

module _ (env : Environment) (m : LabelManager) where
  abbrev pub name_of : BridgeLabel → String
  name_of label = full_name m.prefix m.aliases label

  unfoldable pub ensure_one : String → String → String → String → Action (Unit {0})
  ensure_one repo name color text = tolerate (perform env (ensure_label repo name color text))

  abbrev pub ensure_each : String → List BridgeLabel → Action (Unit {0})
  ensure_each repo [] = pure tt
  ensure_each repo (label ∷ rest) = do
    ensure_one repo (name_of label) (default_color label) (description label)
    ensure_each repo rest

  unfoldable pub ensure_base_set : String → Action (Unit {0})
  ensure_base_set repo = if not m.enabled then pure tt else ensure_each repo base_set

  unfoldable pub ensure_failure : String → String → Action (Unit {0})
  ensure_failure repo category =
      let label = failure category in
      if not m.enabled
      then pure tt
      else ensure_one repo (name_of label) (default_color label) (description label)

  abbrev pub ensure_category : String → BridgeLabel → Action (Unit {0})
  ensure_category repo (failure category) = ensure_failure repo category
  ensure_category repo _ = pure tt

  unfoldable pub apply : String → ℕ → BridgeLabel → Action (Unit {0})
  apply repo pr label =
      if not m.enabled
      then pure tt
      else do ensure_category repo label; perform env (apply_label_to_pr repo pr (name_of label))

  unfoldable pub remove : String → ℕ → BridgeLabel → Action (Unit {0})
  remove repo pr label =
      if not m.enabled then pure tt else perform env (remove_label_from_pr repo pr (name_of label))
