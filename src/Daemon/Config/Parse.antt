-- ===== src/Daemon/Config/Parse.antt =====
-- crates/sinfonia/src/config/typed.rs: `ServiceConfig::from_workflow` and the parsers of its sections. A key
-- that is missing, or holds a value of another kind, falls back to its default.
pub mod Llm
pub mod Whole
pub mod Follows
mod Examples
use Prim.Native.Char.{code}
use Prim.Native.Nat.{Ordering}
use Prim.Native.String.{compare as compare_str, ◌++◌ as append_str}
use sinfonia.Base.{
  ℕ, ◌%◌, ◌^◌, ◌==◌, ltb, String, Bool, true, false, Option, none, some, List, [], ◌∷◌, ◌++◌, ◌⊎◌,
  ℤ, Map, insert, is_empty_str, non_empty, str_eq, trim, eq_ignore_ascii_case, unwrap_or,
  map_option, and_then, or_else, if◌then◌else◌,
}
use sinfonia.Base.Order.{sort_by}
use sinfonia.Domain.{F64}
use sinfonia.Json.{
  Json, object, Fields, no_fields, field, get, as_str, as_u64, as_array, as_object, texts_of,
  text_at, text_or,
}
use sinfonia.Tracker.Config.{TrackerKind, linear, jira, TrackerConfig, parse_kind}
use sinfonia.Daemon.Config.{
  Result, ok, err, ConfigError, config_invalid, unsupported_tracker_kind, PollingConfig,
  WorkspaceCleanupConfig, WorkspaceConfig, HooksConfig, EnvMode, inherit, scrubbed, EnvPolicy,
  AgentConfig, DispatchAllowlist, ServerConfig, TelemetryConfig,
}

-- The code of other packages: the environment, Unicode's lower case, the home directory, the rounding of
-- an integer, and a path made absolute from the folder of the file and canonical.
pub record Host : Type 0 where
  pub env_var : String → Option String
  pub to_lowercase : String → String
  pub tilde : String → String
  pub f64_of : ℤ → F64
  pub absolute : String → String
  pub temp_workspaces : String

infixl 5 ◌>>=◌
unfoldable pub ◌>>=◌ : {A B : Type 0} → Result A → (A → Result B) → Result B
ok found >>= then_ = then_ found
err why >>= then_ = err why

abbrev pub u64_or : Option Json → String → ℕ → ℕ
u64_or v key default = unwrap_or (as_u64 (get v key)) default

abbrev pub as_u32 : ℕ → ℕ
as_u32 n = n % 2 ^ 32

unfoldable pub string_list : Option Json → Option (List String)
string_list v = map_option texts_of (as_array v)

unfoldable pub parse_polling : Option Json → PollingConfig
parse_polling config = record { interval_ms = u64_or (get config "polling") "interval_ms" 30000 }

unfoldable pub parse_workspace_cleanup : Option Json → WorkspaceCleanupConfig
parse_workspace_cleanup config =
    let c = get (get config "workspace") "cleanup" in
    record {
      sweep_interval_secs = u64_or c "sweep_interval_secs" 600;
      max_age_hours = u64_or c "max_age_hours" 0;
    }

unfoldable pub parse_hooks : Option Json → Result HooksConfig
parse_hooks config =
    let h = get config "hooks" in
    let timeout = u64_or h "timeout_ms" 60000 in
    if timeout == 0
    then err (config_invalid "hooks.timeout_ms must be > 0")
    else ok (record {
      after_create = text_at h "after_create";
      before_run = text_at h "before_run";
      after_run = text_at h "after_run";
      before_remove = text_at h "before_remove";
      timeout_ms = timeout;
    })

-- `sort`, then `dedup`
abbrev pub dedup_from : String → List String → List String
dedup_from last [] = []
dedup_from last (s ∷ rest) =
    let later = dedup_from s rest in if str_eq last s then later else s ∷ later

abbrev pub dedup : List String → List String
dedup [] = []
dedup (s ∷ rest) = s ∷ dedup_from s rest

abbrev pub names_at : Option Json → String → List String
names_at v key = unwrap_or (string_list (get v key)) []

abbrev pub mode_of : Option String → EnvMode
mode_of none = inherit
mode_of (some s) = if eq_ignore_ascii_case s "scrubbed" then scrubbed else inherit

unfoldable pub parse_env_policy : Option Json → EnvPolicy
parse_env_policy agent = elim (as_object (get agent "env_policy")) [
  | none ↦ record { mode = inherit; passthrough = [] }
  | some members ↦
      let ep = some (object members) in
      record {
        mode = mode_of (text_at ep "mode");
        passthrough =
            dedup (sort_by compare_str (names_at ep "passthrough" ++ names_at ep "forward"));
      }
]

unfoldable pub parse_dispatch_allowlist : Option Json → DispatchAllowlist
parse_dispatch_allowlist config = record {
  require_labels = names_at (get (get config "agent") "dispatch_allowlist") "require_labels";
}

unfoldable pub parse_server : Option Json → ServerConfig
parse_server config =
    let s = get config "server" in
    record {
      port = map_option (λ n. n % 2 ^ 16) (as_u64 (get s "port"));
      bind = text_or s "bind" "127.0.0.1";
    }

module _ (host : Host) where
  open host use {env_var, to_lowercase, tilde, absolute, temp_workspaces}

  unfoldable pub resolve_var_string : String → Option String
  resolve_var_string String.[] = none
  resolve_var_string (String.◌∷◌ c rest) =
      if code c == 36 then non_empty (env_var rest) else some (String.◌∷◌ c rest)

  -- A name up to its first `/`, and what follows from there
  abbrev pub split_slash : String → String × String
  split_slash String.[] = (String.[], String.[])
  split_slash (String.◌∷◌ c s) =
      let (name, tail) = split_slash s in
      if code c == 47 then (String.[], String.◌∷◌ c s) else (String.◌∷◌ c name, tail)

  abbrev pub variable_path : String → String → String
  variable_path s rest =
      unwrap_or (map_option (λ v. append_str v (split_slash rest).1) (env_var (split_slash rest).0))
        s

  unfoldable pub resolve_path_string : String → String
  resolve_path_string String.[] = tilde String.[]
  resolve_path_string (String.◌∷◌ c rest) =
      tilde (if code c == 36 then variable_path (String.◌∷◌ c rest) rest else String.◌∷◌ c rest)

  unfoldable pub parse_workspace : Option Json → WorkspaceConfig
  parse_workspace config = record {
    root = absolute (resolve_path_string (text_or (get config "workspace") "root" temp_workspaces));
    cleanup = parse_workspace_cleanup config;
  }

  abbrev pub tracker_key : TrackerKind → Option String → Option String
  tracker_key kind (some s) = resolve_var_string s
  tracker_key linear none = non_empty (env_var "LINEAR_API_KEY")
  tracker_key jira none = non_empty (env_var "JIRA_API_TOKEN")

  abbrev pub tracker_of : Option Json → TrackerKind → TrackerConfig
  tracker_of t kind = record {
    kind = kind;
    endpoint =
        text_or t "endpoint" (elim kind [ linear ↦ "https://api.linear.app/graphql" | jira ↦ "" ]);
    api_key = tracker_key kind (text_at t "api_key");
    project_slug = text_at t "project_slug";
    active_states = unwrap_or (string_list (get t "active_states")) ("Todo" ∷ "In Progress" ∷ []);
    terminal_states =
        unwrap_or (string_list (get t "terminal_states"))
          ("Closed" ∷ "Cancelled" ∷ "Canceled" ∷ "Duplicate" ∷ "Done" ∷ []);
    jira_email = or_else (text_at t "email") (env_var "JIRA_EMAIL");
  }

  abbrev pub kind_of : String → Result TrackerKind
  kind_of s = elim (parse_kind to_lowercase s) [
    | none ↦ err (unsupported_tracker_kind (to_lowercase s))
    | some kind ↦ ok kind
  ]

  unfoldable pub parse_tracker : Option Json → Result TrackerConfig
  parse_tracker config =
      let t = get config "tracker" in
      elim (text_at t "kind") [
        | none ↦ err (unsupported_tracker_kind "(missing)")
        | some s ↦ kind_of s >>= λ kind. ok (tracker_of t kind)
      ]

  -- A limit of 0 is left out, and one that wraps to 0 is not.
  abbrev pub add_limit : String → Option ℕ → Map ℕ → Map ℕ
  add_limit state none limits = limits
  add_limit state (some n) limits =
      if ltb 0 n then insert (to_lowercase state) (as_u32 n) limits else limits

  -- In the order in which the map iterates, by key
  unfoldable pub limits_of : Fields → Map ℕ → Map ℕ
  limits_of no_fields limits = limits
  limits_of (field state v rest) limits = limits_of rest (add_limit state (as_u64 (some v)) limits)

  unfoldable pub parse_agent : Option Json → Result AgentConfig
  parse_agent config =
      let a = get config "agent" in
      let max_turns = unwrap_or (map_option as_u32 (as_u64 (get a "max_turns"))) 20 in
      if max_turns == 0
      then err (config_invalid "agent.max_turns must be > 0")
      else ok (record {
        max_concurrent_agents =
            unwrap_or (map_option as_u32 (as_u64 (get a "max_concurrent_agents"))) 10;
        max_turns = max_turns;
        max_retry_backoff_ms = u64_or a "max_retry_backoff_ms" 300000;
        max_concurrent_agents_by_state =
            limits_of (unwrap_or (as_object (get a "max_concurrent_agents_by_state")) no_fields) [];
        env_policy = parse_env_policy a;
      })

  -- `TenantId::resolve`
  abbrev pub named_tenant : Option String → Option String
  named_tenant s = non_empty (map_option trim s)

  unfoldable pub resolve_tenant : Option String → String
  resolve_tenant from_config =
      unwrap_or (or_else (named_tenant from_config) (named_tenant (env_var "SINFONIA_TENANT_ID")))
        "default"

  abbrev pub add_header : String → Option String → Map String → Map String
  add_header k none headers = headers
  add_header k (some v) headers = insert k v headers

  abbrev pub headers_of : Fields → Map String → Map String
  headers_of no_fields headers = headers
  headers_of (field k v rest) headers =
      headers_of rest (add_header k (and_then (as_str (some v)) resolve_var_string) headers)

  unfoldable pub parse_telemetry : Option Json → TelemetryConfig
  parse_telemetry config =
      let t = get config "telemetry" in
      record {
        otlp_endpoint = and_then (text_at t "otlp_endpoint") resolve_var_string;
        service_name = text_or t "service_name" "sinfonia";
        tenant_id = resolve_tenant (and_then (text_at t "tenant_id") resolve_var_string);
        headers = headers_of (unwrap_or (as_object (get t "headers")) no_fields) [];
        sinfonia_events_secret = and_then (text_at t "sinfonia_events_secret") resolve_var_string;
      }
