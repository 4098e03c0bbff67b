-- ===== src/Bridge/Feedback/Manifest/Accepts.antt =====
-- What a manifest that is fetched satisfies, whatever the run put into its artifact.
use sinfonia.Base.{
  ℕ, zero, suc, ◌%◌, ◌^◌, ◌==◌, ◌≤◌, ◌≡◌, ◌∙◌, refl, ap, subst, leb, ltb, String, Option, none,
  some, List, [], ◌∷◌, ◌⊎◌, inl, inr, length, u32_max, u64_saturating_add, if◌then◌else◌, arith,
  Bool-cases,
}
use sinfonia.Json.{Json, get, as_u64}
use sinfonia.Bridge.Types.{Result, ok, err, HarnessManifestSection}
use sinfonia.Bridge.Feedback.Manifest.Shape.{
  Manifest, Failure, ◌>>=◌, take, version_within, manifest_of, failures_of, gate, gated, versioned,
  outcome_of, parse_manifest, optional, read_text,
}
use sinfonia.Bridge.Feedback.Manifest.Fetch.{
  ArtifactMeta, Artifacts, Entry, bounded, read_entry, read_archive, extract_entry,
  accepted_manifest, parsed, downloaded, chosen, listed, try_fetch_manifest,
}

length-take-le :
    {A : Type 0} (n : ℕ) (xs : List A) → (length (take n xs) ≤ n) × (length (take n xs) ≤ length xs)
unfolding take
length-take-le zero xs = (omega arith, omega arith)
length-take-le (suc n) [] = (omega arith, omega arith)
length-take-le (suc n) (x ∷ xs) =
    let ih = length-take-le n xs in (omega (arith, ih.0), omega (arith, ih.1))

-- The version is known or newer, and no more failures are kept than allowed or told of.
pub record IsBounded (max_failures : ℕ) (m : Manifest) : Type 0 where
  pub version : 2 ≤ m.schema_version
  pub kept : length m.failures ≤ max_failures
  pub told : length m.failures ≤ m.total_failures

abbrev truncated : ℕ → List Failure → List Failure
truncated n fs = if ltb n (length fs) then take n fs else fs

truncated_lem :
    (n : ℕ) (fs : List Failure)
    → (length (truncated n fs) ≤ n) × (length (truncated n fs) ≤ length fs)
truncated_lem n fs = elim (Bool-cases (ltb n (length fs))) [
  | inl e ↦ rw (e) (length-take-le n fs)
  | inr e ↦ rw (e) (ground (arith, e), omega arith)
]

abbrev built : ℕ → ℕ → Option String → Option String → List Failure → Manifest
built n version url name failures = record {
  schema_version = version;
  run_url = url;
  artifact_bundle_name = name;
  failures = truncated n failures;
  total_failures = length failures;
}

-- The parts that a manifest is put together of
built_lem :
    (n : ℕ) (a : Option ℕ) (b c : Option (Option String)) (d : Option (List Failure)) (m : Manifest)
    → (a >>= λ version.
        b >>= λ url. c >>= λ name. d >>= λ failures. some (built n version url name failures))
      ≡ some m
    → (a ≡ some m.schema_version) × (length m.failures ≤ n) × (length m.failures ≤ m.total_failures)
built_lem n none b c d m h = absurd (cc h)
built_lem n (some version) none c d m h = absurd (cc h)
built_lem n (some version) (some url) none d m h = absurd (cc h)
built_lem n (some version) (some url) (some name) none m h = absurd (cc h)
built_lem n (some version) (some url) (some name) (some failures) m h =
    let same : built n version url name failures ≡ m = cc h in
    let whole = truncated_lem n failures in
    (
      ap (λ (k : Manifest). some k.schema_version) same,
      subst (λ (k : Manifest). length k.failures ≤ n) same whole.0,
      subst (λ (k : Manifest). length k.failures ≤ k.total_failures) same whole.1,
    )

-- What the value tells of the manifest
manifest_of_lem :
    (n : ℕ) (value : Json) (m : Manifest)
    → manifest_of n value ≡ some m
    → (version_within (as_u64 (get (some value) "schema_version")) ≡ some m.schema_version)
      × (length m.failures ≤ n)
      × (length m.failures ≤ m.total_failures)
unfolding manifest_of
manifest_of_lem n value m h =
    built_lem n (version_within (as_u64 (get (some value) "schema_version")))
      (optional read_text (get (some value) "run_url"))
      (optional read_text (get (some value) "artifact_bundle_name"))
      (failures_of (get (some value) "failures")) m h

version_within_lem :
    (o : Option ℕ) (v : ℕ) → version_within o ≡ some v → (o ≡ some v) × (v ≤ u32_max)
version_within_lem none v h = absurd (cc h)
version_within_lem (some n) v h = elim (Bool-cases (leb n u32_max)) [
  | inl e ↦ let same : n ≡ v = cc (rw (e) at h) in (ap some same, ground (arith, e, same))
  | inr e ↦ absurd (cc (rw (e) at h))
]

gate_lem :
    (version : ℕ) (k m : Manifest)
    → accepted_manifest (gate version k) ≡ some m
    → (k ≡ m) × (2 ≤ version)
gate_lem version k m h = elim (Bool-cases (version == 2)) [
  | inl e ↦ (cc (rw (e) at h), ground (arith, e))
  | inr e ↦ elim (Bool-cases (ltb 2 version)) [
    | inl l ↦ (cc (rw (e, l) at h), ground (arith, l))
    | inr l ↦ absurd (cc (rw (e, l) at h))
  ]
]

gated-IsBounded :
    (n v : ℕ) (value : Json) (o : Option Manifest) (m : Manifest)
    → as_u64 (get (some value) "schema_version") ≡ some v
    → manifest_of n value ≡ o
    → accepted_manifest (gated (v % 2 ^ 32) o) ≡ some m
    → IsBounded n m
gated-IsBounded n v value none m told e h = absurd (cc h)
gated-IsBounded n v value (some k) m told e h =
    let (same, newer) = gate_lem (v % 2 ^ 32) k m h in
    let (versioned_, kept, all_told) = manifest_of_lem n value m (e ∙ ap some same) in
    let (read, fits) =
      version_within_lem (as_u64 (get (some value) "schema_version")) m.schema_version versioned_ in
    let whole : v ≡ m.schema_version = cc (told, read) in
    record { version = omega (arith, newer, whole, fits); kept = kept; told = all_told }

outcome-IsBounded :
    (n : ℕ) (o : Option Json) (m : Manifest)
    → accepted_manifest (outcome_of n o) ≡ some m
    → IsBounded n m
outcome-IsBounded n none m h = absurd (cc h)
outcome-IsBounded n (some value) m h = read (as_u64 (get (some value) "schema_version")) refl h
  where
    read :
        (o : Option ℕ)
        → as_u64 (get (some value) "schema_version") ≡ o
        → accepted_manifest (versioned n value o) ≡ some m
        → IsBounded n m
    read none e k = absurd (cc k)
    read (some v) e k = gated-IsBounded n v value _ m e refl k

module _ (src : Artifacts) (cfg : HarnessManifestSection) where
  -- The bytes that a manifest was read from: no more than the limit, whatever the archive unpacks to
  pub record Fetched (m : Manifest) : Type 0 where
    pub bytes : List ℕ
    pub small : length bytes ≤ cfg.max_artifact_bytes
    pub reads :
        accepted_manifest (parse_manifest src.parse_json bytes cfg.max_failures_parsed) ≡ some m
    pub bounded : IsBounded cfg.max_failures_parsed m

  extract_entry-small :
      (zip_bytes : List ℕ) (name : String) (cap : ℕ) (bytes : List ℕ)
      → extract_entry src cfg zip_bytes name cap ≡ some bytes
      → length bytes ≤ cap
  unfolding extract_entry
  extract_entry-small zip_bytes name cap bytes h = archive (src.open_zip zip_bytes) h
    where
      sized : (r : String ⊎ List ℕ) → bounded cap r ≡ some bytes → length bytes ≤ cap
      sized (inl e) k = absurd (cc k)
      sized (inr found) k = elim (Bool-cases (ltb cap (length found))) [
        | inl e ↦ absurd (cc (rw (e) at k))
        | inr e ↦
            let same : found ≡ bytes = cc (rw (e) at k) in
            ground (arith, e, ap (λ (b : List ℕ). length b) same)
      ]

      entry : (o : Option Entry) → read_entry cap o ≡ some bytes → length bytes ≤ cap
      entry none k = absurd (cc k)
      entry (some e) k = sized (e (u64_saturating_add cap 1)) k

      archive :
          (a : String ⊎ (String → Option Entry))
          → read_archive name cap a ≡ some bytes
          → length bytes ≤ cap
      archive (inl e) k = absurd (cc k)
      archive (inr a) k = entry (a name) k

  downloaded-Fetched :
      (m : Manifest) (r : Result (List ℕ)) → downloaded src cfg r ≡ some m → Fetched m
  downloaded-Fetched m (err e) h = absurd (cc h)
  downloaded-Fetched m (ok zip_bytes) h =
      entry (extract_entry src cfg zip_bytes cfg.filename cfg.max_artifact_bytes) refl h
    where
      entry :
          (o : Option (List ℕ))
          → extract_entry src cfg zip_bytes cfg.filename cfg.max_artifact_bytes ≡ o
          → parsed src cfg o ≡ some m
          → Fetched m
      entry none e k = absurd (cc k)
      entry (some bytes) e k = record {
        bytes = bytes;
        small = extract_entry-small zip_bytes cfg.filename cfg.max_artifact_bytes bytes e;
        reads = k;
        bounded =
            unfold parse_manifest in
            outcome-IsBounded cfg.max_failures_parsed (src.parse_json bytes) m k;
      }

  chosen-Fetched :
      (repo : String) (m : Manifest) (o : Option ArtifactMeta)
      → chosen src cfg repo o ≡ some m
      → Fetched m
  chosen-Fetched repo m none h = absurd (cc h)
  chosen-Fetched repo m (some artifact) h =
      elim (Bool-cases (ltb cfg.max_artifact_bytes artifact.size_in_bytes)) [
        | inl e ↦ absurd (cc (rw (e) at h))
        | inr e ↦ downloaded-Fetched m _ (rw (e) at h)
      ]

  listed-Fetched :
      (repo : String) (m : Manifest) (r : Result (List ArtifactMeta))
      → listed src cfg repo r ≡ some m
      → Fetched m
  listed-Fetched repo m (err e) h = absurd (cc h)
  listed-Fetched repo m (ok artifacts) h = chosen-Fetched repo m _ h

  -- A manifest that is fetched comes from at most max_artifact_bytes bytes, whatever the archive of the
  -- run unpacks to; its version is 2 or newer, and it keeps at most max_failures_parsed failures and no
  -- more than it counts.
  pub try_fetch_manifest-Fetched :
      (repo : String) (run_id : ℕ) (m : Manifest)
      → try_fetch_manifest src cfg repo run_id ≡ some m
      → Fetched m
  unfolding try_fetch_manifest
  try_fetch_manifest-Fetched repo run_id m h =
      listed-Fetched repo m (src.list_run_artifacts repo run_id) h
