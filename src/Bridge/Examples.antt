-- ===== src/Bridge/Examples.antt =====
-- The bridge's theorems at an environment in which every call succeeds: two landings, one pull
-- request that is green.
use sinfonia.Base.{
  refl, ℕ, ◌+◌, ◌≡◌, ◌⊎◌, String, Bool, true, false, Option, none, some, List, [], ◌∷◌, ℤ, pos,
  arith, if◌then◌else◌, ltb, ◌==◌, str_eq, All,
}
use sinfonia.Domain.{null, finite}
use sinfonia.Tracker.Config.{linear}
use sinfonia.Bridge.Types.{
  ok, CheckRunSummary, PrLanding, accepted, merged, queued, LandingRow, FailureCategory,
  CustomFieldsSection, LabelAliases, BridgeConfig,
}
use sinfonia.Bridge.World.{Environment, World}
use sinfonia.Bridge.World.Triple.{Outcome}
use sinfonia.Bridge.Labels.{LabelManager}
use sinfonia.Bridge.Merge.{kick_within, kick, advance_behind}
use sinfonia.Bridge.Merge.Events.{Event, approved, ci_green, ci_red, boot, serve}
use sinfonia.Bridge.Merge.Gate.{Gated, start, serve-Gated}
use sinfonia.Bridge.Merge.Cycles.{AllBounded, CountedUp, serve-bounded}
use sinfonia.Bridge.Store.{ticket_of}
use sinfonia.Bridge.Merge.Termination.{kick_terminates}
use sinfonia.Bridge.Feedback.Attempts.{decide, field_u32, continue_retrying, cap_hit}
use sinfonia.Bridge.Feedback.Attempts.Cap.{field_at, retries_up_to_cap}
use sinfonia.Bridge.Feedback.Categorize.{categorize, default_category, is_hit}
use sinfonia.Bridge.Feedback.Categorize.Priority.{IsBest, categorize_lem}
use sinfonia.Bridge.Feedback.Transition.{RedContext, apply_red_below_cap}
use sinfonia.Bridge.Feedback.Transition.Writes.{Followed, Stopped, red_writes, red_writes_first}
use sinfonia.Bridge.Feedback.Evaluate.{evaluate_one_pr}
use sinfonia.Bridge.Feedback.Evaluate.Outcomes.{Fits, evaluate_one_pr-Fits}
use sinfonia.Base.{unwrap_or, leb, ◌*◌, ◌/◌}
use sinfonia.Base.{◌++◌, ◌↔◌}
use sinfonia.Bridge.Webhook.Verify.{accept, signature_prefix, verify_signature}
use sinfonia.Bridge.Webhook.Verify.Signature.{encode_hex, Carries, verify_iff, verify_genuine}
use sinfonia.Bridge.Feedback.Cost.{Arithmetic, CostTable}
use sinfonia.Bridge.Feedback.Budget.Flush.{
  Happening, session, flush, run, total_of, pending_of, run_lem,
}

abbrev all_green : CheckRunSummary
all_green = record { failed = []; passed = "test" ∷ []; any_pending = false }

abbrev one_failed : CheckRunSummary
one_failed = record { failed = "lint" ∷ []; passed = "test" ∷ []; any_pending = false }

-- Pull request 1 is behind its base, the others are clean.
abbrev read_pull_request : ℕ → PrLanding
read_pull_request pr = record {
  head_sha = "sha";
  base_ref = "main";
  merged = false;
  state = "open";
  mergeable_state = if pr == 1 then "behind" else "clean";
  mergeable = some true;
}

abbrev pub env : Environment
env = record {
  perform = λ calls c. ok tt;
  field = λ calls ticket key. ok null;
  summary = λ calls repo sha. ok all_green;
  pull_request = λ calls repo pr. ok (read_pull_request pr);
  update_branch = λ calls repo pr sha. ok accepted;
  merge = λ calls repo pr method sha. ok (merged "landed");
  now = λ calls. 7;
}

abbrev category_of : String → Option (String → Bool) → ℤ → FailureCategory
category_of name pattern priority = record {
  name = name;
  check_pattern = pattern;
  target_state = "Needs Fixes";
  priority = priority;
}

abbrev categories : List FailureCategory
categories =
    category_of "lint" (some (λ s. str_eq s "lint")) (pos 10)
    ∷ category_of "default" none (pos 0)
    ∷ []

abbrev fields : CustomFieldsSection
fields = record {
  attempt_count = "attempts";
  last_failure_log = "log";
  max_attempts_override = "max";
  failure_category = "category";
  tokens_consumed = "tokens";
  cost_consumed_usd = "cost";
  max_cost_override_usd = "max_cost";
}

abbrev no_alias : LabelAliases
no_alias = record {
  in_progress = none;
  awaiting_review = none;
  needs_fixes = none;
  cap_hit = none;
  budget_exceeded = none;
  failure_prefix = none;
}

abbrev pub cfg : BridgeConfig
cfg = record {
  feedback_loop = record {
    max_attempts = 3;
    needs_fixes_state = "Needs Fixes";
    blocked_state = "Blocked";
    awaiting_review_state = some "In Review";
    pr_link_pattern = λ s. some "T-1";
    required_checks = [];
    max_tokens_per_ticket = some 1000;
    max_cost_per_ticket_usd = some (finite false 5 (pos 0));
    budget_exceeded_state = "Budget";
    failure_comment_template = "template";
    failure_categories = categories;
    harness_manifest = record {
      ingest = true;
      artifact_glob = "bridge-*";
      filename = "bridge.json";
      max_artifact_bytes = 5242880;
      max_failures_parsed = 20;
      max_failure_digest_bytes = 8192;
    };
    merge_coordinator = record { enabled = true; merge_method = "rebase"; max_update_cycles = 2 };
  };
  custom_fields = fields;
  tracker = record {
    kind = linear;
    endpoint = "https://api.linear.app/graphql";
    api_key = some "key";
    project_slug = some "slug";
    active_states = [];
    terminal_states = [];
    jira_email = none;
  };
  github = record {
    webhook_secret = some "secret";
    pat = some "pat";
    app_id = none;
    private_key = none;
    manage_labels = true;
    label_prefix = "sinfonia";
    label_aliases = no_alias;
  };
  server = record { bind = "0.0.0.0"; port = 8081; public_url = none };
  storage = record { state_db_path = "bridge.db" };
  telemetry = record {
    otlp_endpoint = none;
    service_name = "sinfonia-bridge";
    tenant_id = none;
    headers = [];
    sinfonia_events_secret = some "secret";
    sinfonia_event_subscribe_url = none;
    sinfonia_event_callback_url = none;
  };
}

abbrev pub labels : LabelManager
labels = record { enabled = true; prefix = "sinfonia"; aliases = no_alias }

abbrev landing_at : ℕ → ℕ → LandingRow
landing_at pr at = record {
  repo = "o/r";
  pr_number = pr;
  ticket_id = "T";
  head_sha = "sha";
  status = queued;
  attempt = 0;
  updated_at = at;
}

abbrev pub world : World
world = record {
  tables = record {
    processed_deliveries = [];
    pr_ticket_map = ("o/r", 2, "T") ∷ [];
    landing_queue = landing_at 2 1 ∷ landing_at 1 2 ∷ [];
  };
  calls = [];
}

abbrev events : List Event
events = boot ∷ approved "o/r" 2 ∷ ci_green "o/r" 1 ∷ ci_red "o/r" 2 ∷ []

serve-Gated_example : Gated env cfg (serve env cfg labels events world)
serve-Gated_example = serve-Gated env cfg labels events world start

serve-bounded_example :
    AllBounded cfg (serve env cfg labels events world)
    × CountedUp env cfg labels
        (landing_at 2 1)
        (advance_behind env cfg labels
          (landing_at 2 1)
          (read_pull_request 2)
          (serve env cfg labels events world)).1
serve-bounded_example =
    serve-bounded env cfg labels events world (landing_at 2 1) (read_pull_request 2)
      (omega arith, (omega arith, tt)) (omega arith) refl refl

kick_terminates_example :
    kick_within env cfg labels 5 "o/r" world ≡ some (kick env cfg labels "o/r" world).1
kick_terminates_example = kick_terminates env cfg labels 5 "o/r" world (omega arith)

retries_up_to_cap_example :
    decide (unwrap_or (field_u32 (field_at 3 2)) 0) 3
    ≡ (if ltb 2 3 then continue_retrying (2 + 1) else cap_hit 3 3)
retries_up_to_cap_example = retries_up_to_cap 3 2 (omega arith)

categorize_lem_example :
    ((c : FailureCategory) × (categorize ("lint" ∷ []) categories ≡ some c)
      × IsBest ("lint" ∷ []) categories c)
    ⊎ (All (λ d. is_hit ("lint" ∷ []) d ≡ false) categories
        × (categorize ("lint" ∷ []) categories ≡ default_category categories))
categorize_lem_example = categorize_lem ("lint" ∷ []) categories

abbrev red_run : RedContext
red_run = record {
  repo = "o/r";
  pr_number = 2;
  pr_url = "url";
  ticket_id = "T";
  ticket_identifier = "T";
  failed_checks = "lint" ∷ [];
  failure_log_excerpt = "excerpt";
}

abbrev lint : FailureCategory
lint = category_of "lint" none (pos 10)

red_writes_first_example :
    let writes = red_writes red_run lint 1 fields "log" in
    let r = apply_red_below_cap env labels red_run lint 1 fields "comment" "log" world in
    Outcome (λ _. Followed env [] writes) (Stopped env [] writes) r.0 r.1
red_writes_first_example = red_writes_first env labels red_run lint 1 fields "comment" "log" world

abbrev pub render : String → ℕ → ℕ → String → List String → String → String → String → String
render template attempt max category failed excerpt url ticket = "comment"

abbrev pub no_digest : String → ℕ → String → World → Option String × World
no_digest repo run_id url w = (none, w)

evaluate_one_pr-Fits_example :
    let r = evaluate_one_pr env cfg labels render no_digest "o/r" 2 one_failed none world in
    Outcome
      (λ o _. Fits env cfg (ticket_of "o/r" 2 world.tables.pr_ticket_map) one_failed o)
      (λ _. Unit {0})
      r.0
      r.1
evaluate_one_pr-Fits_example =
    evaluate_one_pr-Fits env cfg labels render no_digest "o/r" 2 one_failed none world

-- Whole cents in place of decimals
abbrev pub cents : Arithmetic ℕ
cents = record {
  zero_decimal = 0;
  from_u64 = λ n. n;
  plus = λ a b. a + b;
  times = λ a b. a * b;
  over = λ a b. a / b;
  at_least = λ a b. leb b a;
  is_zero = λ a. a == 0;
}

abbrev pub prices : CostTable ℕ
prices = record {
  verified_at = 0;
  providers =
      ("openai", ("m", record { input_per_million_usd = 300; output_per_million_usd = 900 }) ∷ [])
      ∷ [];
}

abbrev happenings : List Happening
happenings =
    session 1000 "T" "openai" "m" 70 30
    ∷ session 2000 "U" "openai" "m" 5 5
    ∷ flush 40000 "T"
    ∷ session 50000 "T" "openai" "m" 10 10
    ∷ []

run_lem_example :
    let r =
      run cents
        (λ s. s)
        (λ f. none)
        (λ c. "")
        (λ n. finite false n (pos 0))
        cfg.feedback_loop
        prices
        true
        "T"
        happenings
        [] in
    (total_of cents
        (λ s. s)
        (λ f. none)
        (λ c. "")
        (λ n. finite false n (pos 0))
        cfg.feedback_loop
        prices
        true
        "T"
        r.1
      ≡ 120)
    × (r.0
          + pending_of cents
              (λ s. s)
              (λ f. none)
              (λ c. "")
              (λ n. finite false n (pos 0))
              cfg.feedback_loop
              prices
              true
              "T"
              r.1
        ≡ 120)
run_lem_example =
    run_lem cents (λ s. s) (λ f. none) (λ c. "") (λ n. finite false n (pos 0)) cfg.feedback_loop
      prices true "T" happenings (omega arith)

-- A digest of three bytes
abbrev pub short_hmac : List ℕ → List ℕ → List ℕ
short_hmac secret body = 171 ∷ 0 ∷ 15 ∷ []

verify_genuine_example :
    verify_signature short_hmac
      (1 ∷ [])
      (some (signature_prefix ++ encode_hex (171 ∷ 0 ∷ 15 ∷ [])))
      (2 ∷ [])
    ≡ accept tt
verify_genuine_example =
    verify_genuine short_hmac (1 ∷ []) (2 ∷ []) (omega arith, (omega arith, (omega arith, tt)))

verify_iff_example :
    (verify_signature short_hmac (1 ∷ []) (some (115 ∷ [])) (2 ∷ []) ≡ accept tt)
    ↔ Carries (171 ∷ 0 ∷ 15 ∷ []) (some (115 ∷ []))
verify_iff_example = verify_iff short_hmac (1 ∷ []) (some (115 ∷ [])) (2 ∷ [])
