-- ===== src/Daemon/Config.antt =====
-- crates/sinfonia/src/config/typed.rs: the typed configuration, its per-state overrides and the
-- preflight validation. `Parse` reads it from a WORKFLOW.md. A path is a text; the path of the file is
-- left out of `ServiceConfig`. `str::to_lowercase` and the process environment are parameters.
pub mod Effective
pub mod Parse
use Prim.Native.Char.{code}
use Prim.Native.String.{◌++◌}
use sinfonia.Base.{
  ℕ, ◌==◌, leb, String, Bool, true, false, ◌&&◌, ◌||◌, not, Option, none, some, List, [], ◌∷◌, any,
  all, is_empty, Map, lookup, ℤ, str_eq, is_empty_str, non_empty, eq_ignore_ascii_case, unwrap_or,
  is_some, if◌then◌else◌,
}
use sinfonia.Domain.{F64}
use sinfonia.Tracker.Config.{TrackerConfig}

pub data AgentProvider : Type 0 where
  open_ai anthropic google ollama claude_code codex open_code codex_app_server : AgentProvider

pub data ConfigError : Type 0 where
  missing_tracker_api_key missing_tracker_project_slug front_matter_not_map : ConfigError
  unsupported_tracker_kind parse_error : String → ConfigError
  config_invalid : String → ConfigError

pub data Result {ℓ} (A : Type ℓ) : Type ℓ where
  ok : A → Result A
  err : ConfigError → Result A

pub record PollingConfig : Type 0 where
  pub interval_ms : ℕ

pub record WorkspaceCleanupConfig : Type 0 where
  pub sweep_interval_secs : ℕ
  pub max_age_hours : ℕ

pub record WorkspaceConfig : Type 0 where
  pub root : String
  pub cleanup : WorkspaceCleanupConfig

pub record HooksConfig : Type 0 where
  pub after_create : Option String
  pub before_run : Option String
  pub after_run : Option String
  pub before_remove : Option String
  pub timeout_ms : ℕ

pub data EnvMode : Type 0 where
  inherit scrubbed : EnvMode

pub record EnvPolicy : Type 0 where
  pub mode : EnvMode
  pub passthrough : List String

pub record ServerConfig : Type 0 where
  pub port : Option ℕ
  pub bind : String

pub record TelemetryConfig : Type 0 where
  pub otlp_endpoint : Option String
  pub service_name : String
  pub tenant_id : String
  pub headers : Map String
  pub sinfonia_events_secret : Option String

pub record AgentConfig : Type 0 where
  pub max_concurrent_agents : ℕ
  pub max_turns : ℕ
  pub max_retry_backoff_ms : ℕ
  pub max_concurrent_agents_by_state : Map ℕ
  pub env_policy : EnvPolicy

pub record DispatchAllowlist : Type 0 where
  pub require_labels : List String

pub record LlmConfig : Type 0 where
  pub provider : AgentProvider
  pub model : String
  pub endpoint : Option String
  pub api_key : Option String
  pub command : String
  pub turn_timeout_ms : ℕ
  pub read_timeout_ms : ℕ
  pub stall_timeout_ms : ℤ
  pub approval_policy : Option String
  pub thread_sandbox : Option String
  pub turn_sandbox_policy : Option String
  pub temperature : Option F64

pub record StateOverride : Type 0 where
  pub provider : Option AgentProvider
  pub model : Option String
  pub endpoint : Option String
  pub api_key : Option String
  pub command : Option String
  pub temperature : Option F64
  pub turn_timeout_ms : Option ℕ
  pub prompt_template : Option String

pub record ServiceConfig : Type 0 where
  pub tracker : TrackerConfig
  pub polling : PollingConfig
  pub workspace : WorkspaceConfig
  pub hooks : HooksConfig
  pub agent : AgentConfig
  pub dispatch_allowlist : DispatchAllowlist
  pub llm : LlmConfig
  pub server : ServerConfig
  pub telemetry : TelemetryConfig
  pub states : Map StateOverride

unfoldable pub permits : DispatchAllowlist → List String → Bool
permits d labels =
    if is_empty d.require_labels
    then true
    else any (λ req. any (λ l. eq_ignore_ascii_case l req) labels) d.require_labels

unfoldable pub is_raw_llm : AgentProvider → Bool
is_raw_llm open_ai = true
is_raw_llm anthropic = true
is_raw_llm google = true
is_raw_llm ollama = true
is_raw_llm _ = false

unfoldable pub is_cli : AgentProvider → Bool
is_cli claude_code = true
is_cli codex = true
is_cli open_code = true
is_cli _ = false

-- The equality that Rust derives.
abbrev pub same_provider : AgentProvider → AgentProvider → Bool
same_provider open_ai open_ai = true
same_provider anthropic anthropic = true
same_provider google google = true
same_provider ollama ollama = true
same_provider claude_code claude_code = true
same_provider codex codex = true
same_provider open_code open_code = true
same_provider codex_app_server codex_app_server = true
same_provider _ _ = false

-- The name that `{:?}` prints.
abbrev pub debug_provider : AgentProvider → String
debug_provider open_ai = "OpenAi"
debug_provider anthropic = "Anthropic"
debug_provider google = "Google"
debug_provider ollama = "Ollama"
debug_provider claude_code = "ClaudeCode"
debug_provider codex = "Codex"
debug_provider open_code = "OpenCode"
debug_provider codex_app_server = "CodexAppServer"

unfoldable pub default_command : AgentProvider → String
default_command claude_code =
    "claude -p --output-format stream-json --verbose --dangerously-skip-permissions"
default_command codex = "codex exec --json"
default_command open_code = "opencode run --format json"
default_command codex_app_server = "codex app-server"
default_command _ = ""

-- The variable that holds a provider's key.
abbrev pub key_variable : AgentProvider → Option String
key_variable open_ai = some "OPENAI_API_KEY"
key_variable anthropic = some "ANTHROPIC_API_KEY"
key_variable google = some "GOOGLE_API_KEY"
key_variable _ = none

-- `std::env::var(name).ok()` is the parameter `env_var`.
unfoldable pub default_llm_env : (String → Option String) → AgentProvider → Option String
default_llm_env env_var p = elim (key_variable p) [
  | none ↦ none
  | some name ↦ non_empty (env_var name)
]
