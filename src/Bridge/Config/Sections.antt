-- ===== src/Bridge/Config/Sections.antt =====
-- The sections of BRIDGE.md. A key that is missing, or holds a value of another kind, falls back to its
-- default; a number that is too large for its type wraps, as `as u32` does.
use sinfonia.Base.{
  ℕ, suc, ◌%◌, ◌^◌, any, String, Bool, true, Option, none, some, List, [], ◌∷◌, ◌++◌, inl, inr, pos,
  str_eq, non_empty, trim, concat, decimal, parse_unsigned, u64_max, unwrap_or, if◌then◌else◌,
}
use sinfonia.Json.{
  Json, null, text, array, Items, no_items, item, object, get, as_u64, as_i64, as_f64, as_bool,
  as_object,
}
use sinfonia.Tracker.Config.{linear, jira, parse_kind}
use sinfonia.Bridge.Types.{
  tracker, bridge_config_invalid, Result, ok, err, TrackerSection, GitHubSection, LabelAliases,
  FeedbackLoopSection, MergeCoordinatorSection, HarnessManifestSection, FailureCategory,
  CustomFieldsSection, ServerSection, StorageSection, TelemetrySection,
}
use sinfonia.Bridge.Config.Defaults.{
  Regex, Platform, default_merge_coordinator, default_harness_manifest, default_failure_comment,
  default_pr_pattern, text_at, text_or, read_str_array, map_option, and_then, ◌>>=◌, ok_or,
  resolve_var_string, resolved_at, headers_at,
}

abbrev pub u64_as_u32 : ℕ → ℕ
u64_as_u32 n = n % 2 ^ 32

unfoldable pub parse_merge_coordinator : Option Json → MergeCoordinatorSection
parse_merge_coordinator f =
    let m = get f "merge_coordinator" in
    let d = default_merge_coordinator in
    record {
      enabled = unwrap_or (as_bool (get m "enabled")) d.enabled;
      merge_method = text_or m "merge_method" d.merge_method;
      max_update_cycles =
          unwrap_or (map_option u64_as_u32 (as_u64 (get m "max_update_cycles")))
            d.max_update_cycles;
    }

unfoldable pub parse_harness_manifest : Option Json → HarnessManifestSection
parse_harness_manifest f =
    let d = default_harness_manifest in
    record {
      ingest = unwrap_or (as_bool (get f "ingest_harness_manifest")) d.ingest;
      artifact_glob = text_or f "harness_manifest_artifact_glob" d.artifact_glob;
      filename = text_or f "harness_manifest_filename" d.filename;
      max_artifact_bytes = unwrap_or (as_u64 (get f "max_artifact_bytes")) d.max_artifact_bytes;
      max_failures_parsed = unwrap_or (as_u64 (get f "max_failures_parsed")) d.max_failures_parsed;
      max_failure_digest_bytes =
          unwrap_or (as_u64 (get f "max_failure_digest_bytes")) d.max_failure_digest_bytes;
    }

abbrev pub default_category_at : String → FailureCategory
default_category_at needs_fixes_state = record {
  name = "default";
  check_pattern = none;
  target_state = needs_fixes_state;
  priority = pos 0;
}

abbrev pub category_message : ℕ → String → String
category_message idx what =
    concat ("feedback_loop.failure_categories[" ∷ decimal idx ∷ "]" ∷ what ∷ [])

unfoldable pub parse_custom_fields : Option Json → CustomFieldsSection
parse_custom_fields config =
    let c = get config "custom_fields" in
    record {
      attempt_count = text_or c "attempt_count" "sinfonia_attempt_count";
      last_failure_log = text_or c "last_failure_log" "sinfonia_last_ci_failure";
      max_attempts_override = text_or c "max_attempts_override" "sinfonia_max_attempts";
      failure_category = text_or c "failure_category" "sinfonia_failure_category";
      tokens_consumed = text_or c "tokens_consumed" "sinfonia_tokens_consumed";
      cost_consumed_usd = text_or c "cost_consumed_usd" "sinfonia_cost_consumed_usd";
      max_cost_override_usd = text_or c "max_cost_override_usd" "sinfonia_max_cost_usd";
    }

abbrev pub aliases_of : Option Json → LabelAliases
aliases_of aliases = record {
  in_progress = text_at aliases "in_progress";
  awaiting_review = text_at aliases "awaiting_review";
  needs_fixes = text_at aliases "needs_fixes";
  cap_hit = text_at aliases "cap_hit";
  budget_exceeded = text_at aliases "budget_exceeded";
  failure_prefix = text_at aliases "failure_prefix";
}

-- A category `default` is added at the end where there is none.
unfoldable pub with_default : String → List FailureCategory → List FailureCategory
with_default needs_fixes_state cs =
    if any (λ c. str_eq c.name "default") cs
    then cs
    else cs ++ default_category_at needs_fixes_state ∷ []

module _ (sys : Platform) where
  open sys use {env_var, to_lowercase, compile, parse_url, tilde, f64_of}

  unfoldable pub parse_tracker : Option Json → Result TrackerSection
  parse_tracker config = do
    let t = get config "tracker"
    kind_str ← ok_or (text_at t "kind") "tracker.kind is required"
    kind ← elim (parse_kind to_lowercase kind_str) [
      | none ↦ err (tracker (to_lowercase kind_str))
      | some kind ↦ ok kind
    ]
    ok (record {
      kind = kind;
      endpoint =
          text_or t "endpoint"
            (elim kind [ linear ↦ "https://api.linear.app/graphql" | jira ↦ "" ]);
      api_key = resolved_at env_var t "api_key";
      project_slug = resolved_at env_var t "project_slug";
      active_states = read_str_array t "active_states";
      terminal_states = read_str_array t "terminal_states";
      jira_email = resolved_at env_var t "email";
    })

  -- A number, or a text that resolves to one
  abbrev pub app_id_of : Option Json → Option ℕ
  app_id_of (some (text s)) = and_then (resolve_var_string env_var s) (parse_unsigned u64_max)
  app_id_of v = as_u64 v

  unfoldable pub parse_github : Option Json → GitHubSection
  parse_github config =
      let g = get config "github" in
      record {
        webhook_secret = resolved_at env_var g "webhook_secret";
        pat = resolved_at env_var g "pat";
        app_id = app_id_of (get g "app_id");
        private_key = resolved_at env_var g "private_key";
        manage_labels = unwrap_or (as_bool (get g "manage_labels")) true;
        label_prefix = text_or g "label_prefix" "sinfonia";
        label_aliases = aliases_of (get g "label_aliases");
      }

  abbrev pub compiled : String → String → Result Regex
  compiled message pattern = elim (compile pattern) [
    | inl e ↦ err (bridge_config_invalid (concat (message ∷ e ∷ [])))
    | inr r ↦ ok r
  ]

  -- A pattern of its own is wanted of every category but `default`.
  unfoldable pub pattern_of : ℕ → String → Option String → Result (Option (String → Bool))
  pattern_of idx name pattern = elim (and_then pattern (λ s. non_empty (some s))) [
    | some s ↦ compiled (category_message idx ".check_pattern is not a valid regex: ") s >>= λ r.
        ok (some r.is_match)
    | none ↦
        if str_eq name "default"
        then ok none
        else err (
            bridge_config_invalid (
              category_message idx (
                concat
                  (" '" ∷ name ∷ "': check_pattern is required for non-default categories" ∷ []))))
  ]

  unfoldable pub parse_category : ℕ → Json → Result FailureCategory
  parse_category idx v = do
    obj ← ok_or (map_option object (as_object (some v))) (category_message idx " is not an object")
    name ← ok_or (text_at (some obj) "name") (category_message idx ".name is required")
    target_state ←
        ok_or (text_at (some obj) "target_state") (category_message idx ".target_state is required")
    check_pattern ← pattern_of idx name (text_at (some obj) "check_pattern")
    ok (record {
      name = name;
      check_pattern = check_pattern;
      target_state = target_state;
      priority = unwrap_or (as_i64 (get (some obj) "priority")) (pos 0);
    })

  unfoldable pub parse_categories : ℕ → Items → Result (List FailureCategory)
  parse_categories idx no_items = ok []
  parse_categories idx (item v rest) = do
    c ← parse_category idx v
    cs ← parse_categories (suc idx) rest
    ok (c ∷ cs)

  unfoldable pub parse_failure_categories : Option Json → String → Result (List FailureCategory)
  parse_failure_categories none needs_fixes_state = ok (default_category_at needs_fixes_state ∷ [])
  parse_failure_categories (some null) needs_fixes_state =
      ok (default_category_at needs_fixes_state ∷ [])
  parse_failure_categories (some (array items)) needs_fixes_state =
      parse_categories 0 items >>= λ cs. ok (with_default needs_fixes_state cs)
  parse_failure_categories _ needs_fixes_state =
      err (bridge_config_invalid "feedback_loop.failure_categories must be an array")

  unfoldable pub parse_feedback_loop : Option Json → Result FeedbackLoopSection
  parse_feedback_loop config = do
    let f = get config "feedback_loop"
    let needs_fixes_state = text_or f "needs_fixes_state" "Needs Fixes"
    pr_link_pattern ←
        compiled "feedback_loop.pr_link_pattern is not a valid regex: "
          (text_or f "pr_link_pattern" default_pr_pattern)
    failure_categories ← parse_failure_categories (get f "failure_categories") needs_fixes_state
    ok (record {
      max_attempts = u64_as_u32 (unwrap_or (as_u64 (get f "max_attempts")) 5);
      needs_fixes_state = needs_fixes_state;
      blocked_state = text_or f "blocked_state" "Blocked - Human Review";
      awaiting_review_state = non_empty (map_option trim (text_at f "awaiting_review_state"));
      pr_link_pattern = pr_link_pattern.capture;
      required_checks = read_str_array f "required_checks";
      max_tokens_per_ticket = as_u64 (get f "max_tokens_per_ticket");
      max_cost_per_ticket_usd = as_f64 f64_of (get f "max_cost_per_ticket_usd");
      budget_exceeded_state = text_or f "budget_exceeded_state" "Blocked - Budget Cap";
      failure_comment_template = text_or f "failure_comment_template" default_failure_comment;
      failure_categories = failure_categories;
      harness_manifest = parse_harness_manifest f;
      merge_coordinator = parse_merge_coordinator f;
    })

  -- An empty text, and a variable that is not set, are no URL.
  unfoldable pub parse_public_url : Option String → Result (Option String)
  parse_public_url raw = elim (and_then raw (resolve_var_string env_var)) [
    | none ↦ ok none
    | some s ↦ elim (parse_url s) [
      | inl e ↦
          err (
            bridge_config_invalid
              (concat ("server.public_url: invalid URL '" ∷ s ∷ "': " ∷ e ∷ [])))
      | inr url ↦ ok (some url)
    ]
  ]

  unfoldable pub parse_server : Option Json → Result ServerSection
  parse_server config = do
    let s = get config "server"
    public_url ← parse_public_url (text_at s "public_url")
    ok (record {
      bind = text_or s "bind" "0.0.0.0";
      port = unwrap_or (map_option (λ n. n % 2 ^ 16) (as_u64 (get s "port"))) 8081;
      public_url = public_url;
    })

  unfoldable pub parse_storage : Option Json → StorageSection
  parse_storage config = record {
    state_db_path = tilde (text_or (get config "storage") "state_db_path" "~/.sinfonia/bridge.db");
  }

  unfoldable pub parse_telemetry : Option Json → TelemetrySection
  parse_telemetry config =
      let t = get config "telemetry" in
      record {
        otlp_endpoint = resolved_at env_var t "otlp_endpoint";
        service_name = text_or t "service_name" "sinfonia-bridge";
        tenant_id = resolved_at env_var t "tenant_id";
        headers = headers_at env_var t;
        sinfonia_events_secret = resolved_at env_var t "sinfonia_events_secret";
        sinfonia_event_subscribe_url = resolved_at env_var t "sinfonia_event_subscribe_url";
        sinfonia_event_callback_url = resolved_at env_var t "sinfonia_event_callback_url";
      }
