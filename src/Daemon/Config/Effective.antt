-- ===== src/Daemon/Config/Effective.antt =====
-- crates/sinfonia/src/config/typed.rs: `effective_llm_for_state`, `effective_prompt_template` and
-- `validate_for_dispatch`, with what an accepted configuration guarantees to a dispatch.
use Prim.Native.String.{◌++◌}
use sinfonia.Base.{
  is_blank, ◌≡◌, ◌↔◌, refl, String, Bool, true, false, ◌&&◌, not, Option, none, some, List, [], ◌∷◌,
  All, lookup, is_empty_str, unwrap_or, if◌then◌else◌, arith, Bool-cases, inl, inr, ◌⊎◌,
}
use sinfonia.Daemon.Config.{
  AgentProvider, open_ai, anthropic, google, ollama, codex, claude_code, open_code,
  codex_app_server, ServiceConfig, LlmConfig, StateOverride, Result, ok, err, config_invalid,
  missing_tracker_api_key, missing_tracker_project_slug, default_command, default_llm_env, is_cli,
  same_provider, debug_provider,
}

-- `if let Some(v) = o { field = v }`
abbrev pub or_keep {ℓ} : {A : Type ℓ} → Option A → A → A
or_keep none old = old
or_keep (some v) old = v

abbrev or_keep_some {ℓ} : {A : Type ℓ} → Option A → Option A → Option A
or_keep_some none old = old
or_keep_some (some v) old = some v

abbrev changes : Option AgentProvider → AgentProvider → Bool
changes none p = false
changes (some q) p = not (same_provider q p)

abbrev needs_command : AgentProvider → Bool
needs_command codex = true
needs_command claude_code = true
needs_command open_code = true
needs_command codex_app_server = true
needs_command _ = false

-- A lane by the code's test
abbrev IsRunnable : LlmConfig → Type 0
IsRunnable llm = (is_cli llm.provider && is_blank llm.command) ≡ false

-- The providers that a lane runs on a command line, and those that the global check asks for a command
abbrev pub RunsCommand : AgentProvider → Type 0
RunsCommand p = (p ≡ claude_code) ⊎ (p ≡ codex) ⊎ (p ≡ open_code)

abbrev pub AsksCommand : AgentProvider → Type 0
AsksCommand p = RunsCommand p ⊎ (p ≡ codex_app_server)

-- What a state's override tells of the provider and of the command
abbrev pub lane_provider : LlmConfig → Option StateOverride → AgentProvider
lane_provider llm none = llm.provider
lane_provider llm (some o) = unwrap_or o.provider llm.provider

-- A provider other than the global one brings its own command, if it has one.
abbrev pub own_command : AgentProvider → String → String
own_command claude_code old =
    "claude -p --output-format stream-json --verbose --dangerously-skip-permissions"
own_command codex old = "codex exec --json"
own_command open_code old = "opencode run --format json"
own_command codex_app_server old = "codex app-server"
own_command _ old = old

abbrev command_with : Option AgentProvider → LlmConfig → String
command_with none llm = llm.command
command_with (some p) llm =
    if same_provider p llm.provider then llm.command else own_command p llm.command

abbrev pub lane_command : LlmConfig → Option StateOverride → String
lane_command llm none = llm.command
lane_command llm (some o) = unwrap_or o.command (command_with o.provider llm)

is_cli_iff : (p : AgentProvider) → (is_cli p ≡ true) ↔ RunsCommand p
unfolding is_cli
is_cli_iff open_ai =
    (λ h. cc h, λ h. elim h [ inl a ↦ cc a | inr r ↦ elim r [ inl b ↦ cc b | inr c ↦ cc c ] ])
is_cli_iff anthropic =
    (λ h. cc h, λ h. elim h [ inl a ↦ cc a | inr r ↦ elim r [ inl b ↦ cc b | inr c ↦ cc c ] ])
is_cli_iff google =
    (λ h. cc h, λ h. elim h [ inl a ↦ cc a | inr r ↦ elim r [ inl b ↦ cc b | inr c ↦ cc c ] ])
is_cli_iff ollama =
    (λ h. cc h, λ h. elim h [ inl a ↦ cc a | inr r ↦ elim r [ inl b ↦ cc b | inr c ↦ cc c ] ])
is_cli_iff claude_code = (λ h. inl refl, λ h. refl)
is_cli_iff codex = (λ h. inr (inl refl), λ h. refl)
is_cli_iff open_code = (λ h. inr (inr refl), λ h. refl)
is_cli_iff codex_app_server =
    (λ h. cc h, λ h. elim h [ inl a ↦ cc a | inr r ↦ elim r [ inl b ↦ cc b | inr c ↦ cc c ] ])

needs_command_iff : (p : AgentProvider) → (needs_command p ≡ true) ↔ AsksCommand p
needs_command_iff open_ai = (
  λ h. cc h,
  λ h. elim h [
    | inl q ↦ elim q [ inl a ↦ cc a | inr r ↦ elim r [ inl b ↦ cc b | inr c ↦ cc c ] ]
    | inr c ↦ cc c
  ],
)
needs_command_iff anthropic = (
  λ h. cc h,
  λ h. elim h [
    | inl q ↦ elim q [ inl a ↦ cc a | inr r ↦ elim r [ inl b ↦ cc b | inr c ↦ cc c ] ]
    | inr c ↦ cc c
  ],
)
needs_command_iff google = (
  λ h. cc h,
  λ h. elim h [
    | inl q ↦ elim q [ inl a ↦ cc a | inr r ↦ elim r [ inl b ↦ cc b | inr c ↦ cc c ] ]
    | inr c ↦ cc c
  ],
)
needs_command_iff ollama = (
  λ h. cc h,
  λ h. elim h [
    | inl q ↦ elim q [ inl a ↦ cc a | inr r ↦ elim r [ inl b ↦ cc b | inr c ↦ cc c ] ]
    | inr c ↦ cc c
  ],
)
needs_command_iff claude_code = (λ h. inl (inl refl), λ h. refl)
needs_command_iff codex = (λ h. inl (inr (inl refl)), λ h. refl)
needs_command_iff open_code = (λ h. inl (inr (inr refl)), λ h. refl)
needs_command_iff codex_app_server = (λ h. inr refl, λ h. refl)

-- A test of a command under a condition
under_iff :
    (asked blank : Bool) (A : Type 0)
    → (asked ≡ true) ↔ A
    → ((asked && blank) ≡ false) ↔ (A → blank ≡ false)
under_iff true blank A same = (λ h k. h, λ h. h (same.0 refl))
under_iff false blank A same = (λ h k. cc (same.1 k), λ h. refl)

own_command_lem :
    (p : AgentProvider) (old : String)
    → (if is_empty_str (default_command p) then old else default_command p) ≡ own_command p old
unfolding default_command
own_command_lem open_ai old = refl
own_command_lem anthropic old = refl
own_command_lem google old = refl
own_command_lem ollama old = refl
own_command_lem claude_code old = refl
own_command_lem codex old = refl
own_command_lem open_code old = refl
own_command_lem codex_app_server old = refl

default_command_not_blank :
    (p : AgentProvider) → is_cli p ≡ true → is_blank (default_command p) ≡ false
unfolding is_cli default_command is_blank
default_command_not_blank claude_code h = refl
default_command_not_blank codex h = refl
default_command_not_blank open_code h = refl
default_command_not_blank _ h = cc

default_command_not_empty :
    (p : AgentProvider) → is_cli p ≡ true → is_empty_str (default_command p) ≡ false
unfolding is_cli default_command
default_command_not_empty claude_code h = refl
default_command_not_empty codex h = refl
default_command_not_empty open_code h = refl
default_command_not_empty _ h = cc

module _ (to_lowercase : String → String) (env_var : String → Option String) where
  -- The defaults that are picked again when an override changes the provider.
  repick : LlmConfig → LlmConfig
  repick llm =
      let cmd = default_command llm.provider in
      record llm {
        command = if is_empty_str cmd then llm.command else cmd;
        api_key = or_keep_some llm.api_key (default_llm_env env_var llm.provider);
      }

  pub override_llm : LlmConfig → StateOverride → LlmConfig
  unfolding repick
  override_llm llm o =
      let with_provider = record llm { provider = or_keep o.provider llm.provider } in
      let base = if changes o.provider llm.provider then repick with_provider else with_provider in
      record base {
        model = or_keep o.model base.model;
        endpoint = or_keep_some o.endpoint base.endpoint;
        api_key = or_keep_some o.api_key base.api_key;
        command = or_keep o.command base.command;
        temperature = or_keep_some o.temperature base.temperature;
        turn_timeout_ms = or_keep o.turn_timeout_ms base.turn_timeout_ms;
      }

  overridden : LlmConfig → Option StateOverride → LlmConfig
  overridden llm none = llm
  overridden llm (some o) = override_llm llm o

  unfoldable pub effective_llm_for_state : ServiceConfig → String → LlmConfig
  unfolding overridden override_llm
  effective_llm_for_state cfg state = overridden cfg.llm (lookup (to_lowercase state) cfg.states)

  unfoldable pub effective_prompt_template : ServiceConfig → String → String → String
  effective_prompt_template cfg state workflow_body =
      elim (lookup (to_lowercase state) cfg.states) [
        | none ↦ workflow_body
        | some o ↦ unwrap_or o.prompt_template workflow_body
      ]

  -- The loop over the active states.
  validate_states : ServiceConfig → List String → Result (Unit {0})
  validate_states cfg [] = ok tt
  validate_states cfg (state_name ∷ rest) =
      let eff = effective_llm_for_state cfg state_name in
      let later = validate_states cfg rest in
      if is_cli eff.provider && is_blank eff.command
      then err (config_invalid ("state '" ++ state_name ++ "': CLI provider requires a command"))
      else later

  pub validate_for_dispatch : ServiceConfig → Result (Unit {0})
  validate_for_dispatch cfg =
      if is_empty_str (unwrap_or cfg.tracker.api_key "")
      then err missing_tracker_api_key
      else if is_empty_str (unwrap_or cfg.tracker.project_slug "")
      then err missing_tracker_project_slug
      else if needs_command cfg.llm.provider && is_blank cfg.llm.command
      then err (config_invalid (debug_provider cfg.llm.provider ++ ": agent.command must be set"))
      else validate_states cfg cfg.tracker.active_states

  validate_states_sound :
      (cfg : ServiceConfig) (states : List String)
      → validate_states cfg states ≡ ok tt
      → All (λ s. IsRunnable (effective_llm_for_state cfg s)) states
  unfolding validate_states
  validate_states_sound cfg [] h = tt
  validate_states_sound cfg (s ∷ rest) h =
      let eff = effective_llm_for_state cfg s in
      elim (Bool-cases (is_cli eff.provider && is_blank eff.command)) [
        | inl bad ↦ ground (arith, bad, h)
        | inr good ↦ (good, validate_states_sound cfg rest (rw good at h))
      ]

  validate_states_complete :
      (cfg : ServiceConfig) (states : List String)
      → All (λ s. IsRunnable (effective_llm_for_state cfg s)) states
      → validate_states cfg states ≡ ok tt
  unfolding validate_states
  validate_states_complete cfg [] h = refl
  validate_states_complete cfg (s ∷ rest) h = rw (h.0) (validate_states_complete cfg rest h.1)

  provider_lem :
      (q : Option AgentProvider) (llm : LlmConfig)
      → (if changes q llm.provider
          then repick (record llm { provider = or_keep q llm.provider })
          else record llm { provider = or_keep q llm.provider }).provider
        ≡ unwrap_or q llm.provider
  unfolding repick
  provider_lem none llm = refl
  provider_lem (some p) llm = elim (Bool-cases (same_provider p llm.provider)) [
    | inl e ↦ rw (e) refl
    | inr e ↦ rw (e) refl
  ]

  command_lem :
      (q : Option AgentProvider) (c : Option String) (llm : LlmConfig)
      → or_keep c
          (if changes q llm.provider
            then repick (record llm { provider = or_keep q llm.provider })
            else record llm { provider = or_keep q llm.provider }).command
        ≡ unwrap_or c (command_with q llm)
  unfolding repick
  command_lem q (some c) llm = refl
  command_lem none none llm = refl
  command_lem (some p) none llm = elim (Bool-cases (same_provider p llm.provider)) [
    | inl e ↦ rw (e) refl
    | inr e ↦ rw (e) (own_command_lem p llm.command)
  ]

  -- The lane of a state, told
  override_llm_lem :
      (llm : LlmConfig) (o : StateOverride)
      → ((override_llm llm o).provider ≡ lane_provider llm (some o))
        × ((override_llm llm o).command ≡ lane_command llm (some o))
  unfolding override_llm repick
  override_llm_lem llm o = (provider_lem o.provider llm, command_lem o.provider o.command llm)

  overridden_lem :
      (llm : LlmConfig) (t : Option StateOverride)
      → ((overridden llm t).provider ≡ lane_provider llm t)
        × ((overridden llm t).command ≡ lane_command llm t)
  unfolding overridden
  overridden_lem llm none = (refl, refl)
  overridden_lem llm (some o) = override_llm_lem llm o

  abbrev pub told : ServiceConfig → String → Option StateOverride
  told cfg state = lookup (to_lowercase state) cfg.states

  effective_lem :
      (cfg : ServiceConfig) (state : String)
      → ((effective_llm_for_state cfg state).provider ≡ lane_provider cfg.llm (told cfg state))
        × ((effective_llm_for_state cfg state).command ≡ lane_command cfg.llm (told cfg state))
  unfolding effective_llm_for_state
  effective_lem cfg state = overridden_lem cfg.llm (told cfg state)

  -- A lane on a command line has a command.
  abbrev pub Staffed : ServiceConfig → String → Type 0
  Staffed cfg state =
      RunsCommand (lane_provider cfg.llm (told cfg state))
      → is_blank (lane_command cfg.llm (told cfg state)) ≡ false

  IsRunnable-iff :
      (cfg : ServiceConfig) (state : String)
      → IsRunnable (effective_llm_for_state cfg state) ↔ Staffed cfg state
  IsRunnable-iff cfg state =
      rw ((effective_lem cfg state).0, (effective_lem cfg state).1)
        (under_iff _ _ _ (is_cli_iff (lane_provider cfg.llm (told cfg state))))

  All-IsRunnable-iff :
      (cfg : ServiceConfig) (states : List String)
      → All (λ s. IsRunnable (effective_llm_for_state cfg s)) states ↔ All (Staffed cfg) states
  All-IsRunnable-iff cfg [] = (λ h. h, λ h. h)
  All-IsRunnable-iff cfg (s ∷ rest) =
      let one = IsRunnable-iff cfg s in
      let others = All-IsRunnable-iff cfg rest in
      (λ h. (one.0 h.0, others.0 h.1), λ h. (one.1 h.0, others.1 h.1))

  -- What the preflight validation asks of a configuration.
  pub record IsReady (cfg : ServiceConfig) : Type 0 where
    pub has_key : is_empty_str (unwrap_or cfg.tracker.api_key "") ≡ false
    pub has_project : is_empty_str (unwrap_or cfg.tracker.project_slug "") ≡ false
    pub has_command : AsksCommand cfg.llm.provider → is_blank cfg.llm.command ≡ false
    pub lanes : All (Staffed cfg) cfg.tracker.active_states

  validate-IsReady : (cfg : ServiceConfig) → validate_for_dispatch cfg ≡ ok tt → IsReady cfg
  unfolding validate_for_dispatch
  validate-IsReady cfg h = record {
    has_key = ground (arith, h);
    has_project = ground (arith, h);
    has_command = (under_iff _ _ _ (needs_command_iff cfg.llm.provider)).0 (ground (arith, h));
    lanes =
        (All-IsRunnable-iff cfg cfg.tracker.active_states).0
          (validate_states_sound cfg cfg.tracker.active_states (ground (arith, h)));
  }

  IsReady-validate : (cfg : ServiceConfig) → IsReady cfg → validate_for_dispatch cfg ≡ ok tt
  unfolding validate_for_dispatch
  IsReady-validate cfg r =
      rw
        (
          r.has_key,
          r.has_project,
          (under_iff _ (is_blank cfg.llm.command) _ (needs_command_iff cfg.llm.provider)).1
              r.has_command,
        )
        (validate_states_complete cfg cfg.tracker.active_states
          ((All-IsRunnable-iff cfg cfg.tracker.active_states).1 r.lanes))

  -- The preflight validation accepts a configuration exactly when it has a tracker key, a project,
  -- a command where the global provider is Codex, Claude Code, OpenCode or the Codex app server, and a
  -- command on the lane of every active state whose provider is one of the first three. The lane has
  -- the provider and the command of the state's override; where that names no command, another
  -- provider than the global one brings its own, if it has one, and else the global command stays.
  pub validate_iff : (cfg : ServiceConfig) → (validate_for_dispatch cfg ≡ ok tt) ↔ IsReady cfg
  validate_iff cfg = (validate-IsReady cfg, IsReady-validate cfg)

  -- A state whose override names another, command-line provider and no command runs that
  -- provider's default command, which is not blank, whatever the global command is.
  pub override_repicks_command :
      (cfg : ServiceConfig) (state : String) (o : StateOverride) (p : AgentProvider)
      → lookup (to_lowercase state) cfg.states ≡ some o
      → o.provider ≡ some p
      → same_provider p cfg.llm.provider ≡ false
      → is_cli p ≡ true
      → o.command ≡ none
      → (effective_llm_for_state cfg state).provider ≡ p
        × ((effective_llm_for_state cfg state).command ≡ default_command p)
        × (is_blank (effective_llm_for_state cfg state).command ≡ false)
  unfolding effective_llm_for_state
  override_repicks_command cfg state o p found named differs cli silent =
      ground (arith, default_command_not_empty p cli, default_command_not_blank p cli)
