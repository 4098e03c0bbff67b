-- ===== src/Daemon/Config/Parse/Follows.antt =====
-- What a configuration that was read satisfies, and where its states' overrides come from.
use sinfonia.Base.{
  ℕ, ◌==◌, ltb, ◌≡◌, ◌≢◌, ◌∙◌, refl, sym, ap, String, Option, none, some, [], inl, inr, Map, lookup,
  insert, lookup-insert, str_eq, unwrap_or, if◌then◌else◌, arith, Bool-cases,
}
use sinfonia.Json.{Json, Fields, no_fields, field, get, as_u64, as_object}
use sinfonia.Daemon.Config.{
  Result, ok, err, ConfigError, AgentConfig, HooksConfig, StateOverride, ServiceConfig,
}
use sinfonia.Daemon.Config.Parse.{
  Host, ◌>>=◌, as_u32, add_limit, limits_of, parse_tracker, parse_hooks, parse_agent,
}
use sinfonia.Daemon.Config.Parse.Llm.{parse_llm, override_of, overrides_of, parse_states}
use sinfonia.Daemon.Config.Parse.Whole.{from_workflow}

-- A chain that ends well has a first step that did.
well :
    {A B : Type 0} (m : Result A) (k : A → Result B) (b : B)
    → (m >>= k) ≡ ok b
    → (a : A) × (m ≡ ok a) × (k a ≡ ok b)
unfolding ◌>>=◌
well (ok found) k b h = (found, refl, h)
well (err why) k b h = absurd (cc h)

-- A value that is only given where a number is not 0
unless_zero :
    {A : Type 0} (n : ℕ) (e : ConfigError) (a b : A)
    → (if n == 0 then err e else ok a) ≡ ok b
    → (n ≢ 0) × (a ≡ b)
unless_zero n e a b h = elim (Bool-cases (n == 0)) [
  | inl z ↦ absurd (cc (rw (z) at h))
  | inr z ↦ (λ q. ground (arith, z, q), cc (rw (z) at h))
]

parse_hooks_lem :
    (config : Option Json) (hooks : HooksConfig)
    → parse_hooks config ≡ ok hooks
    → hooks.timeout_ms ≢ 0
unfolding parse_hooks
parse_hooks_lem config hooks h =
    let (positive, same) = unless_zero _ _ _ hooks h in
    λ z. positive (ap (λ (k : HooksConfig). k.timeout_ms) same ∙ z)

module _ (host : Host) where
  -- The override that the members tell of a state: the last, in the order in which the map iterates, whose
  -- name is the state's in lower case
  abbrev noted :
      String → String → Result StateOverride → Option StateOverride → Option StateOverride
  noted key name (ok o) current = if str_eq (host.to_lowercase name) key then some o else current
  noted key name (err e) current = current

  abbrev pub told_override : String → Fields → Option StateOverride → Option StateOverride
  told_override key no_fields current = current
  told_override key (field name raw rest) current =
      told_override key rest (noted key name (override_of host name raw) current)

  -- And the limit: the last that is a number above 0, cut to 32 bits
  abbrev limit_noted : String → String → Option ℕ → Option ℕ → Option ℕ
  limit_noted key name none current = current
  limit_noted key name (some n) current =
      if ltb 0 n
      then (if str_eq (host.to_lowercase name) key then some (as_u32 n) else current)
      else current

  abbrev pub told_limit : String → Fields → Option ℕ → Option ℕ
  told_limit key no_fields current = current
  told_limit key (field name v rest) current =
      told_limit key rest (limit_noted key name (as_u64 (some v)) current)

  overrides_of_lem :
      (key : String) (fs : Fields) (out m : Map StateOverride)
      → overrides_of host fs out ≡ ok m
      → lookup key m ≡ told_override key fs (lookup key out)
  unfolding overrides_of
  overrides_of_lem key no_fields out m h = let same : out ≡ m = cc h in ap (lookup key) (sym same)
  overrides_of_lem key (field name raw rest) out m h =
      let (o, read, rest_ok) = well (override_of host name raw) _ m h in
      overrides_of_lem key rest (insert (host.to_lowercase name) o out) m rest_ok
      ∙ ap (told_override key rest) (
          lookup-insert (host.to_lowercase name) key o out
          ∙ ap (λ r. noted key name r (lookup key out)) (sym read))

  add_limit_lem :
      (key name : String) (o : Option ℕ) (limits : Map ℕ)
      → lookup key (add_limit host name o limits) ≡ limit_noted key name o (lookup key limits)
  add_limit_lem key name none limits = refl
  add_limit_lem key name (some n) limits = elim (Bool-cases (ltb 0 n)) [
    | inl e ↦ rw (e) (lookup-insert (host.to_lowercase name) key (as_u32 n) limits)
    | inr e ↦ rw (e) refl
  ]

  limits_of_lem :
      (key : String) (fs : Fields) (limits : Map ℕ)
      → lookup key (limits_of host fs limits) ≡ told_limit key fs (lookup key limits)
  unfolding limits_of
  limits_of_lem key no_fields limits = refl
  limits_of_lem key (field name v rest) limits =
      limits_of_lem key rest (add_limit host name (as_u64 (some v)) limits)
      ∙ ap (told_limit key rest) (add_limit_lem key name (as_u64 (some v)) limits)

  -- The states and limits that a file tells
  abbrev pub states_told : Json → Fields
  states_told def = unwrap_or (as_object (get (some def) "states")) no_fields

  abbrev pub limits_told : Json → Fields
  limits_told def =
      unwrap_or (as_object (get (get (some def) "agent") "max_concurrent_agents_by_state"))
        no_fields

  pub record Follows (def : Json) (cfg : ServiceConfig) : Type 0 where
    pub turns : cfg.agent.max_turns ≢ 0
    pub timeout : cfg.hooks.timeout_ms ≢ 0
    pub overrides :
        (state : String)
        → lookup (host.to_lowercase state) cfg.states
          ≡ told_override (host.to_lowercase state) (states_told def) none
    pub limits :
        (state : String)
        → lookup (host.to_lowercase state) cfg.agent.max_concurrent_agents_by_state
          ≡ told_limit (host.to_lowercase state) (limits_told def) none

  parse_agent_lem :
      (config : Option Json) (agent : AgentConfig)
      → parse_agent host config ≡ ok agent
      → (agent.max_turns ≢ 0)
        × (agent.max_concurrent_agents_by_state
            ≡ limits_of host
                (unwrap_or
                  (as_object (get (get config "agent") "max_concurrent_agents_by_state"))
                  no_fields)
                [])
  unfolding parse_agent
  parse_agent_lem config agent h =
      let (positive, same) = unless_zero _ _ _ agent h in
      (
        λ z. positive (ap (λ (k : AgentConfig). k.max_turns) same ∙ z),
        sym (ap (λ (k : AgentConfig). k.max_concurrent_agents_by_state) same),
      )

  -- A configuration that is read has turns and a timeout of its hooks. Whatever the case of its name, a
  -- state has the override and the limit of the last member, in the order in which serde_json's map
  -- iterates (by key), whose name has the same lower case, and none where there is none.
  pub from_workflow-Follows :
      (def : Json) (cfg : ServiceConfig) → from_workflow host def ≡ ok cfg → Follows def cfg
  unfolding from_workflow parse_states lookup
  from_workflow-Follows def cfg h =
      let (tracker, t, h1) = well (parse_tracker host (some def)) _ cfg h in
      let (hooks, k, h2) = well (parse_hooks (some def)) _ cfg h1 in
      let (agent, a, h3) = well (parse_agent host (some def)) _ cfg h2 in
      let (llm, l, h4) = well (parse_llm host (some def)) _ cfg h3 in
      let (states, s, h5) = well (parse_states host (some def)) _ cfg h4 in
      let timed = parse_hooks_lem (some def) hooks k in
      let turned = parse_agent_lem (some def) agent a in
      let same = read_ok _ cfg h5 in
      record {
        turns = λ z. turned.0 (ap (λ (c : ServiceConfig). c.agent.max_turns) same ∙ z);
        timeout = λ z. timed (ap (λ (c : ServiceConfig). c.hooks.timeout_ms) same ∙ z);
        overrides = λ state.
            ap (λ (c : ServiceConfig). lookup (host.to_lowercase state) c.states) (sym same)
            ∙ overrides_of_lem (host.to_lowercase state) (states_told def) [] states s;
        limits = λ state.
            ap
              (λ (c : ServiceConfig).
                lookup (host.to_lowercase state) c.agent.max_concurrent_agents_by_state)
              (sym same)
            ∙ ap (lookup (host.to_lowercase state)) turned.1
            ∙ limits_of_lem (host.to_lowercase state) (limits_told def) [];
      }
    where
      read_ok : {A : Type 0} (a b : A) → Path (Result A) (ok a) (ok b) → a ≡ b
      read_ok a b h = cc h
