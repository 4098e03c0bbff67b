-- ===== src/Bridge/Feedback/Manifest/Examples.antt =====
-- A manifest with two failures, found under `bridge-*`, and its digest at a small limit.
use sinfonia.Base.{
  strip, ◌≡◌, ◌↔◌, refl, String, true, none, some, [], ◌∷◌, inr, pos, arith, concat,
}
use sinfonia.Json.{Json, text, integer, array, object, no_items, item, no_fields, field}
use sinfonia.Bridge.Types.{ok}
use sinfonia.Bridge.Config.Defaults.{default_harness_manifest}
use sinfonia.Bridge.Feedback.Manifest.Shape.{
  Manifest, parse_manifest, manifest_of, parse_failures, parse_failure,
}
use sinfonia.Bridge.Feedback.Manifest.Glob.{glob_match, split_star, match_parts, behind, ends_with}
use sinfonia.Bridge.Feedback.Manifest.Fetch.{Artifacts, try_fetch_manifest, extract_entry}
use sinfonia.Bridge.Feedback.Manifest.Matches.{Stands, glob_match_iff}
use sinfonia.Bridge.Feedback.Manifest.Accepts.{Fetched, try_fetch_manifest-Fetched}
use sinfonia.Bridge.Feedback.Manifest.Digest.{
  sanitize, without_controls, break_fences, build_failure_digest,
}
use sinfonia.Bridge.Feedback.Manifest.Bounds.{IsDigest, build_failure_digest-IsDigest}

abbrev failure : String → Json
failure name = object (field "scenario" (text name) no_fields)

abbrev body : Json
body = object (
    field "schema_version" (integer (pos 2)) (
      field "failures" (array (item (failure "login") (item (failure "logout") no_items)))
        no_fields))

abbrev artifacts : Artifacts
artifacts = record {
  list_run_artifacts =
      λ repo run_id. ok (record { id = 7; name = "bridge-1"; size_in_bytes = 10 } ∷ []);
  download_artifact = λ repo id cap. ok (1 ∷ []);
  open_zip = λ bytes. inr (λ name. some (λ n. inr (2 ∷ [])));
  parse_json = λ bytes. some body;
}

abbrev manifest : Manifest
manifest = record {
  schema_version = 2;
  run_url = none;
  artifact_bundle_name = none;
  failures =
      record {
        scenario = "login";
        feature_file = none;
        step = none;
        assertion = none;
        artifact_urls = none;
      }
      ∷ record {
        scenario = "logout";
        feature_file = none;
        step = none;
        assertion = none;
        artifact_urls = none;
      }
      ∷ [];
  total_failures = 2;
}

fetches : try_fetch_manifest artifacts default_harness_manifest "o/r" 5 ≡ some manifest
unfolding try_fetch_manifest glob_match split_star match_parts behind strip ends_with extract_entry
    parse_manifest manifest_of parse_failures parse_failure
fetches = refl

try_fetch_manifest-Fetched_example : Fetched artifacts default_harness_manifest manifest
try_fetch_manifest-Fetched_example =
    try_fetch_manifest-Fetched artifacts default_harness_manifest "o/r" 5 manifest fetches

glob_match_iff_example :
    (glob_match "bridge-*" "bridge-1" ≡ true) ↔ Stands "bridge-*" "bridge-1" (split_star "bridge-*")
glob_match_iff_example = glob_match_iff "bridge-*" "bridge-1"

build_failure_digest-IsDigest_example :
    IsDigest manifest "url" 8192 (build_failure_digest manifest "url" default_harness_manifest)
build_failure_digest-IsDigest_example =
    build_failure_digest-IsDigest manifest "url" default_harness_manifest (omega arith)

-- Five backticks keep three in a row.
fence_left : sanitize "`````" ≡ "` ` ```"
unfolding sanitize without_controls break_fences concat
fence_left = refl
