-- ===== src/Bridge/Config/Defaults.antt =====
-- What the sections of BRIDGE.md fall back to, and the small readers of their values.
use Prim.Native.Char.{code}
use sinfonia.Base.{
  ◌==◌, String, Bool, true, false, Option, none, some, List, [], ◌⊎◌, ℤ, Map, insert, non_empty,
  if◌then◌else◌,
}
use sinfonia.Domain.{F64}
pub use sinfonia.Json.{text_at, text_or}
pub use sinfonia.Base.{map_option, and_then}
use sinfonia.Json.{Json, Fields, no_fields, field, get, as_str, as_array, as_object, texts_of}
use sinfonia.Bridge.Types.{
  Result, ok, err, bridge_config_invalid, MergeCoordinatorSection, HarnessManifestSection,
  LabelAliases,
}

-- A compiled pattern: whether it matches, and what its first group captures.
pub record Regex : Type 0 where
  pub is_match : String → Bool
  pub capture : String → Option String

-- What `serde_yaml` makes of a text: an error, a mapping as JSON, nothing, or another value
pub data Yaml : Type 0 where
  malformed : String → Yaml
  mapping : Json → Yaml
  nothing other_value : Yaml

-- The code of other packages: the environment, Unicode's lower case, `Regex::new` and `Url::parse` with
-- the text of their error on the left, the home directory, the rounding of an integer, YAML.
pub record Platform : Type 0 where
  pub env_var : String → Option String
  pub to_lowercase : String → String
  pub compile : String → String ⊎ Regex
  pub parse_url : String → String ⊎ String
  pub tilde : String → String
  pub f64_of : ℤ → F64
  pub load_yaml : String → Yaml

abbrev pub default_merge_coordinator : MergeCoordinatorSection
default_merge_coordinator = record {
  enabled = false;
  merge_method = "rebase";
  max_update_cycles = 3;
}

abbrev pub default_harness_manifest : HarnessManifestSection
default_harness_manifest = record {
  ingest = true;
  artifact_glob = "bridge-*";
  filename = "bridge.json";
  max_artifact_bytes = 5242880;
  max_failures_parsed = 20;
  max_failure_digest_bytes = 8192;
}

abbrev pub no_aliases : LabelAliases
no_aliases = record {
  in_progress = none;
  awaiting_review = none;
  needs_fixes = none;
  cap_hit = none;
  budget_exceeded = none;
  failure_prefix = none;
}

abbrev pub default_failure_comment : String
default_failure_comment =
    "CI failed on attempt {{ attempt }} of {{ max_attempts }}.\n\nFailed checks:\n{{ failed_checks }}\n\nPlease address the failures and push to the same branch.\n"

abbrev pub default_pr_pattern : String
default_pr_pattern = "(?i)(?:closes|fixes|resolves)\\s+([A-Z]+-\\d+|[a-z]+-\\d+)"

unfoldable pub read_str_array : Option Json → String → List String
read_str_array v key = elim (as_array (get v key)) [ none ↦ [] | some items ↦ texts_of items ]

infixl 5 ◌>>=◌ ◌>>◌
unfoldable pub ◌>>=◌ : {A B : Type 0} → Result A → (A → Result B) → Result B
ok value >>= next = next value
err cause >>= next = err cause

abbrev pub ◌>>◌ : {B : Type 0} → Result (Unit {0}) → Result B → Result B
check >> next = check >>= λ _. next

-- `if test { return Err(ConfigInvalid(…)) }`
abbrev pub refuse_if : Bool → String → Result (Unit {0})
refuse_if true message = err (bridge_config_invalid message)
refuse_if false message = ok tt

abbrev pub ok_or : {A : Type 0} → Option A → String → Result A
ok_or none message = err (bridge_config_invalid message)
ok_or (some a) message = ok a

module _ (env_var : String → Option String) where
  -- A text, or the variable of the environment that it names after `$`; none where that is empty.
  unfoldable pub resolve_var_string : String → Option String
  resolve_var_string String.[] = none
  resolve_var_string (String.◌∷◌ c rest) =
      if code c == 36 then non_empty (env_var rest) else some (String.◌∷◌ c rest)

  abbrev pub resolved_at : Option Json → String → Option String
  resolved_at v key = and_then (text_at v key) resolve_var_string

  -- The headers that are texts and resolve
  abbrev pub add_header : String → Option String → Map String → Map String
  add_header k none headers = headers
  add_header k (some v) headers = insert k v headers

  abbrev pub headers_of : Fields → Map String → Map String
  headers_of no_fields headers = headers
  headers_of (field k v rest) headers =
      headers_of rest (add_header k (and_then (as_str (some v)) resolve_var_string) headers)

  abbrev pub headers_at : Option Json → Map String
  headers_at v = elim (as_object (get v "headers")) [ none ↦ [] | some fs ↦ headers_of fs [] ]
