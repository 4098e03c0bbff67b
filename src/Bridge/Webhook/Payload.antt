-- ===== src/Bridge/Webhook/Payload.antt =====
-- The targets that crates/sinfonia-bridge/src/feedback/mod.rs takes from the payload of a delivery.
use sinfonia.Base.{ℕ, String, Option, none, some, List, [], ◌∷◌, str_eq, if◌then◌else◌}
use sinfonia.Json.{Json, Items, no_items, item, array, get, as_str, as_u64}
use sinfonia.Bridge.Feedback.Evaluate.{EventTargets}

abbrev pub add_number : Option ℕ → List ℕ → List ℕ
add_number none ns = ns
add_number (some n) ns = n ∷ ns

abbrev pub numbers_of : Items → List ℕ
numbers_of no_items = []
numbers_of (item v rest) = add_number (as_u64 (get (some v) "number")) (numbers_of rest)

abbrev pub numbers_in : Option Json → List ℕ
numbers_in (some (array items)) = numbers_of items
numbers_in _ = []

unfoldable pub extract_targets : String → Json → EventTargets
extract_targets event payload =
    if str_eq event "check_suite"
    then record {
      repo = as_str (get (get (some payload) "repository") "full_name");
      head_sha = as_str (get (get (some payload) "check_suite") "head_sha");
      pr_numbers = numbers_in (get (get (some payload) "check_suite") "pull_requests");
      run_id = none;
    }
    else if str_eq event "workflow_run"
    then record {
      repo = as_str (get (get (some payload) "repository") "full_name");
      head_sha = as_str (get (get (some payload) "workflow_run") "head_sha");
      pr_numbers = numbers_in (get (get (some payload) "workflow_run") "pull_requests");
      run_id = as_u64 (get (get (some payload) "workflow_run") "id");
    }
    else record { repo = none; head_sha = none; pr_numbers = []; run_id = none }
