-- ===== src/Bridge/Feedback/Manifest/Shape.antt =====
-- `Manifest` as serde reads it, and the gate of its version. A struct is read from an object by its keys,
-- or from an array by position.
use sinfonia.Base.{
  ℕ, zero, suc, ◌%◌, ◌^◌, ◌==◌, leb, ltb, String, Option, none, some, List, [], ◌∷◌, length,
  u32_max, str_eq, concat, decimal, if◌then◌else◌,
}
use sinfonia.Json.{Json, null, text, array, object, Items, no_items, item, find_field, get, as_u64}

pub record ArtifactUrls : Type 0 where
  pub result : Option String
  pub trace : Option String
  pub video : Option String
  pub a11y : Option String

pub record Failure : Type 0 where
  pub scenario : String
  pub feature_file : Option String
  pub step : Option String
  pub assertion : Option String
  pub artifact_urls : Option ArtifactUrls

pub record Manifest : Type 0 where
  pub schema_version : ℕ
  pub run_url : Option String
  pub artifact_bundle_name : Option String
  pub failures : List Failure
  pub total_failures : ℕ

pub data ManifestOutcome : Type 0 where
  ingest : Manifest → ManifestOutcome
  ingest_forward : Manifest → ManifestOutcome
  fallback : String → ManifestOutcome

abbrev pub supported_version : ℕ
supported_version = 2

infixl 5 ◌>>=◌
abbrev pub ◌>>=◌ : {A B : Type 0} → Option A → (A → Option B) → Option B
none >>= next = none
some value >>= next = next value

-- The member of a struct, by its name
abbrev Members : Type 0
Members = String → Option Json

abbrev positional : List String → Items → Option Members
positional names no_items = some (λ key. none)
positional [] (item v rest) = none
positional (name ∷ names) (item v rest) = do
  members ← positional names rest
  some (λ key. if str_eq key name then some v else members key)

abbrev members_of : List String → Json → Option Members
members_of names (object fields) = some (λ key. find_field key fields)
members_of names (array items) = positional names items
members_of names _ = none

-- An `Option` with a default: missing and null are none.
abbrev pub optional : {A : Type 0} → (Json → Option A) → Option Json → Option (Option A)
optional read none = some none
optional read (some null) = some none
optional read (some v) = read v >>= λ a. some (some a)

abbrev pub read_text : Json → Option String
read_text (text s) = some s
read_text _ = none

abbrev required : {A : Type 0} → (Json → Option A) → Option Json → Option A
required read none = none
required read (some v) = read v

abbrev parse_urls : Json → Option ArtifactUrls
parse_urls v = do
  members ← members_of ("result" ∷ "trace" ∷ "video" ∷ "a11y" ∷ []) v
  result ← optional read_text (members "result")
  trace ← optional read_text (members "trace")
  video ← optional read_text (members "video")
  a11y ← optional read_text (members "a11y")
  some (record { result = result; trace = trace; video = video; a11y = a11y })

unfoldable pub parse_failure : Json → Option Failure
parse_failure v = do
  members ← members_of ("scenario" ∷ "feature_file" ∷ "step" ∷ "assertion" ∷ "artifact_urls" ∷ []) v
  scenario ← required read_text (members "scenario")
  feature_file ← optional read_text (members "feature_file")
  step ← optional read_text (members "step")
  assertion ← optional read_text (members "assertion")
  artifact_urls ← optional parse_urls (members "artifact_urls")
  some (record {
    scenario = scenario;
    feature_file = feature_file;
    step = step;
    assertion = assertion;
    artifact_urls = artifact_urls;
  })

unfoldable pub parse_failures : Items → Option (List Failure)
parse_failures no_items = some []
parse_failures (item v rest) = do f ← parse_failure v; fs ← parse_failures rest; some (f ∷ fs)

abbrev pub failures_of : Option Json → Option (List Failure)
failures_of none = some []
failures_of (some (array items)) = parse_failures items
failures_of (some _) = none

abbrev pub version_within : Option ℕ → Option ℕ
version_within none = none
version_within (some n) = if leb n u32_max then some n else none

unfoldable pub take : {A : Type 0} → ℕ → List A → List A
take zero xs = []
take (suc n) [] = []
take (suc n) (x ∷ xs) = x ∷ take n xs

-- The value has the key `schema_version`, so that it is an object. `truncate` keeps the first failures.
unfoldable pub manifest_of : ℕ → Json → Option Manifest
manifest_of max_failures value = do
  schema_version ← version_within (as_u64 (get (some value) "schema_version"))
  run_url ← optional read_text (get (some value) "run_url")
  artifact_bundle_name ← optional read_text (get (some value) "artifact_bundle_name")
  failures ← failures_of (get (some value) "failures")
  some (record {
    schema_version = schema_version;
    run_url = run_url;
    artifact_bundle_name = artifact_bundle_name;
    failures = if ltb max_failures (length failures) then take max_failures failures else failures;
    total_failures = length failures;
  })

abbrev pub gate : ℕ → Manifest → ManifestOutcome
gate version manifest =
    if version == supported_version
    then ingest manifest
    else if ltb supported_version version
    then ingest_forward manifest
    else fallback (
        concat (
          "bridge.json schema_version "
          ∷ decimal version
          ∷ " is older than the minimum supported "
          ∷ decimal supported_version
          ∷ []))

abbrev pub gated : ℕ → Option Manifest → ManifestOutcome
gated version none = fallback "bridge.json shape mismatch"
gated version (some manifest) = gate version manifest

-- The version `as u32`
abbrev pub versioned : ℕ → Json → Option ℕ → ManifestOutcome
versioned max_failures value none = fallback "bridge.json missing or non-integer schema_version"
versioned max_failures value (some v) = gated (v % 2 ^ 32) (manifest_of max_failures value)

abbrev pub outcome_of : ℕ → Option Json → ManifestOutcome
outcome_of max_failures none = fallback "malformed bridge.json"
outcome_of max_failures (some value) =
    versioned max_failures value (as_u64 (get (some value) "schema_version"))

unfoldable pub parse_manifest : (List ℕ → Option Json) → List ℕ → ℕ → ManifestOutcome
parse_manifest parse_json bytes max_failures = outcome_of max_failures (parse_json bytes)
