-- ===== src/Daemon/Config/Parse/Llm.antt =====
-- The lane of all states and the lanes of single states, as WORKFLOW.md gives them.
use sinfonia.Base.{
  String, Bool, Option, none, some, List, [], ◌∷◌, pos, Map, insert, any, str_eq, non_empty, concat,
  unwrap_or, map_option, and_then, or_else, if◌then◌else◌,
}
use sinfonia.Json.{Json, Fields, no_fields, field, get, as_u64, as_i64, as_f64, as_object, text_at}
use sinfonia.Daemon.Config.{
  AgentProvider, open_ai, anthropic, google, ollama, claude_code, codex, open_code,
  codex_app_server, Result, ok, err, config_invalid, LlmConfig, StateOverride, default_command,
  default_llm_env,
}
use sinfonia.Daemon.Config.Parse.{Host, ◌>>=◌, resolve_var_string}

abbrev pub is_one_of : List String → String → Bool
is_one_of names s = any (str_eq s) names

unfoldable pub parse_provider : String → Result AgentProvider
parse_provider s =
    if is_one_of ("openai" ∷ []) s
    then ok open_ai
    else if is_one_of ("anthropic" ∷ []) s
    then ok anthropic
    else if is_one_of ("google" ∷ "gemini" ∷ []) s
    then ok google
    else if is_one_of ("ollama" ∷ "local" ∷ []) s
    then ok ollama
    else if is_one_of ("claude_code" ∷ "claude-code" ∷ "claudecode" ∷ "claude" ∷ []) s
    then ok claude_code
    else if is_one_of ("codex" ∷ "codex_cli" ∷ "codex-cli" ∷ []) s
    then ok codex
    else if is_one_of ("opencode" ∷ []) s
    then ok open_code
    else if is_one_of ("codex_app_server" ∷ "codex-app-server" ∷ []) s
    then ok codex_app_server
    else err (config_invalid (concat ("unknown agent.provider: " ∷ s ∷ [])))

abbrev pub default_model : AgentProvider → String
default_model open_ai = "gpt-4o-mini"
default_model anthropic = "claude-sonnet-4-6"
default_model google = "gemini-1.5-pro"
default_model ollama = "llama3.1"
default_model claude_code = "claude-sonnet-4-6"
default_model _ = ""

module _ (host : Host) where
  open host use {env_var, to_lowercase, f64_of}

  abbrev pub provider_named : String → Result AgentProvider
  provider_named s = parse_provider (to_lowercase s)

  abbrev pub lane_key : AgentProvider → Option String → Option String
  lane_key provider none = default_llm_env env_var provider
  lane_key provider (some s) = resolve_var_string host s

  abbrev pub lane_of : Option Json → Option Json → AgentProvider → LlmConfig
  lane_of agent codex_ provider =
      let either_text : String → Option String =
        λ key. or_else (text_at agent key) (text_at codex_ key) in
      record {
        provider = provider;
        model = unwrap_or (either_text "model") (default_model provider);
        endpoint =
            non_empty
              (map_option (λ s. unwrap_or (resolve_var_string host s) "") (either_text "endpoint"));
        api_key = lane_key provider (either_text "api_key");
        command = unwrap_or (either_text "command") (default_command provider);
        turn_timeout_ms =
            unwrap_or
              (or_else (as_u64 (get codex_ "turn_timeout_ms"))
                (as_u64 (get agent "turn_timeout_ms")))
              3600000;
        read_timeout_ms =
            unwrap_or
              (or_else (as_u64 (get codex_ "read_timeout_ms"))
                (as_u64 (get agent "read_timeout_ms")))
              5000;
        stall_timeout_ms =
            unwrap_or
              (or_else (as_i64 (get codex_ "stall_timeout_ms"))
                (as_i64 (get agent "stall_timeout_ms")))
              (pos 300000);
        approval_policy = text_at codex_ "approval_policy";
        thread_sandbox = text_at codex_ "thread_sandbox";
        turn_sandbox_policy = text_at codex_ "turn_sandbox_policy";
        temperature =
            or_else (as_f64 f64_of (get agent "temperature"))
              (as_f64 f64_of (get codex_ "temperature"));
      }

  unfoldable pub parse_llm : Option Json → Result LlmConfig
  parse_llm config =
      let agent = get config "agent" in
      let codex_ = get config "codex" in
      provider_named
        (unwrap_or (or_else (text_at agent "provider") (text_at codex_ "provider")) "anthropic")
      >>= λ provider. ok (lane_of agent codex_ provider)

  -- `transpose`: no provider, or one that must be known
  abbrev pub own_provider : Option String → Result (Option AgentProvider)
  own_provider none = ok none
  own_provider (some s) = provider_named s >>= λ p. ok (some p)

  abbrev pub override_with : Option Json → Option AgentProvider → StateOverride
  override_with raw provider = record {
    provider = provider;
    model = text_at raw "model";
    endpoint = and_then (text_at raw "endpoint") (resolve_var_string host);
    api_key = and_then (text_at raw "api_key") (resolve_var_string host);
    command = text_at raw "command";
    temperature = as_f64 f64_of (get raw "temperature");
    turn_timeout_ms = as_u64 (get raw "turn_timeout_ms");
    prompt_template = or_else (text_at raw "prompt") (text_at raw "prompt_template");
  }

  unfoldable pub override_of : String → Json → Result StateOverride
  override_of name raw = elim (as_object (some raw)) [
    | none ↦ err (config_invalid (concat ("states." ∷ name ∷ ": expected object" ∷ [])))
    | some members ↦ own_provider (text_at (some raw) "provider") >>= λ provider.
        ok (override_with (some raw) provider)
  ]

  -- In the order in which the map iterates, by key: of two names with one lower case the later key stays.
  unfoldable pub overrides_of : Fields → Map StateOverride → Result (Map StateOverride)
  overrides_of no_fields out = ok out
  overrides_of (field name raw rest) out =
      override_of name raw >>= λ o. overrides_of rest (insert (to_lowercase name) o out)

  unfoldable pub parse_states : Option Json → Result (Map StateOverride)
  parse_states config = overrides_of (unwrap_or (as_object (get config "states")) no_fields) []
