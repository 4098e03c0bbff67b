-- ===== src/Bridge/Feedback/Manifest/Fetch.antt =====
-- `try_fetch_manifest`: from the artifacts of a run to its manifest. GitHub's two calls and the zip archive
-- are parameters; any miss gives none.
use sinfonia.Base.{
  ℕ, ltb, String, Option, none, some, List, ◌⊎◌, inl, inr, length, find, u64_saturating_add,
  if◌then◌else◌,
}
use sinfonia.Json.{Json}
use sinfonia.Bridge.Types.{Result, ok, err, HarnessManifestSection}
use sinfonia.Bridge.Feedback.Manifest.Shape.{
  Manifest, ManifestOutcome, ingest, ingest_forward, fallback, parse_manifest,
}
use sinfonia.Bridge.Feedback.Manifest.Glob.{glob_match}

pub record ArtifactMeta : Type 0 where
  pub id : ℕ
  pub name : String
  pub size_in_bytes : ℕ

-- An entry gives at most as many bytes as it is asked for, or an error.
abbrev pub Entry : Type 0
Entry = ℕ → String ⊎ List ℕ

pub record Artifacts : Type 0 where
  pub list_run_artifacts : String → ℕ → Result (List ArtifactMeta)
  pub download_artifact : String → ℕ → ℕ → Result (List ℕ)
  pub open_zip : List ℕ → String ⊎ (String → Option Entry)
  pub parse_json : List ℕ → Option Json

abbrev pub bounded : ℕ → String ⊎ List ℕ → Option (List ℕ)
bounded max_decompressed (inl e) = none
bounded max_decompressed (inr bytes) =
    if ltb max_decompressed (length bytes) then none else some bytes

abbrev pub read_entry : ℕ → Option Entry → Option (List ℕ)
read_entry max_decompressed none = none
read_entry max_decompressed (some entry) =
    bounded max_decompressed (entry (u64_saturating_add max_decompressed 1))

abbrev pub read_archive : String → ℕ → String ⊎ (String → Option Entry) → Option (List ℕ)
read_archive entry_name max_decompressed (inl e) = none
read_archive entry_name max_decompressed (inr archive) =
    read_entry max_decompressed (archive entry_name)

abbrev pub accepted_manifest : ManifestOutcome → Option Manifest
accepted_manifest (ingest m) = some m
accepted_manifest (ingest_forward m) = some m
accepted_manifest (fallback reason) = none

module _ (src : Artifacts) (cfg : HarnessManifestSection) where
  unfoldable pub extract_entry : List ℕ → String → ℕ → Option (List ℕ)
  extract_entry zip_bytes entry_name max_decompressed =
      read_archive entry_name max_decompressed (src.open_zip zip_bytes)

  abbrev pub parsed : Option (List ℕ) → Option Manifest
  parsed none = none
  parsed (some bytes) =
      accepted_manifest (parse_manifest src.parse_json bytes cfg.max_failures_parsed)

  abbrev pub downloaded : Result (List ℕ) → Option Manifest
  downloaded (err e) = none
  downloaded (ok zip_bytes) = parsed (extract_entry zip_bytes cfg.filename cfg.max_artifact_bytes)

  abbrev pub chosen : String → Option ArtifactMeta → Option Manifest
  chosen repo none = none
  chosen repo (some artifact) =
      if ltb cfg.max_artifact_bytes artifact.size_in_bytes
      then none
      else downloaded (src.download_artifact repo artifact.id cfg.max_artifact_bytes)

  abbrev pub listed : String → Result (List ArtifactMeta) → Option Manifest
  listed repo (err e) = none
  listed repo (ok artifacts) =
      chosen repo (find (λ (a : ArtifactMeta). glob_match cfg.artifact_glob a.name) artifacts)

  unfoldable pub try_fetch_manifest : String → ℕ → Option Manifest
  try_fetch_manifest repo run_id = listed repo (src.list_run_artifacts repo run_id)
