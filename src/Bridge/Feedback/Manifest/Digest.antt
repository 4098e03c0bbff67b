-- ===== src/Bridge/Feedback/Manifest/Digest.antt =====
-- `build_failure_digest`: the text of a manifest. A length is a number of bytes in UTF-8.
use Prim.Native.Char.{code}
use sinfonia.Base.{
  ℕ, zero, suc, ◌+◌, ◌-◌, ◌==◌, max, leb, ltb, String, Bool, ◌&&◌, ◌||◌, Option, none, some, List,
  [], ◌∷◌, length, as_bytes, concat, decimal, is_empty_str, unwrap_or, if◌then◌else◌,
}
use sinfonia.Bridge.Types.{HarnessManifestSection}
use sinfonia.Bridge.World.{World}
use sinfonia.Bridge.Feedback.Manifest.Shape.{ArtifactUrls, Failure, Manifest}
use sinfonia.Bridge.Feedback.Manifest.Fetch.{Artifacts, try_fetch_manifest}

abbrev pub size : String → ℕ
size s = length (as_bytes s)

-- `char::is_control`
abbrev pub is_control : ℕ → Bool
is_control c = leb c 31 || (leb 127 c && leb c 159)

unfoldable pub without_controls : String → String
without_controls String.[] = String.[]
without_controls (String.◌∷◌ c s) =
    let rest = without_controls s in
    if is_control (code c) then concat (" " ∷ rest ∷ []) else String.◌∷◌ c rest

abbrev pub ticks : ℕ → String
ticks zero = ""
ticks (suc n) = concat ("`" ∷ ticks n ∷ [])

-- `replace("```", "` ` `")`, given the backticks that are held back
unfoldable pub break_fences : ℕ → String → String
break_fences held String.[] = ticks held
break_fences held (String.◌∷◌ c s) =
    let third = break_fences 0 s in
    let more = break_fences (suc held) s in
    if code c == 96
    then (if held == 2 then concat ("` ` `" ∷ third ∷ []) else more)
    else concat (ticks held ∷ String.◌∷◌ c third ∷ [])

unfoldable pub sanitize : String → String
sanitize s = break_fences 0 (without_controls s)

abbrev pub line_of : String → Option String → String
line_of label none = ""
line_of label (some s) = concat (label ∷ sanitize s ∷ "\n" ∷ [])

abbrev pub present : Option String → List String → List String
present none rest = rest
present (some s) rest = sanitize s ∷ rest

-- `join(" · ")`
abbrev pub join_dots : List String → String
join_dots [] = ""
join_dots (s ∷ []) = s
join_dots (s ∷ t ∷ rest) = concat (s ∷ " · " ∷ join_dots (t ∷ rest) ∷ [])

abbrev pub artifact_refs : ArtifactUrls → String
artifact_refs u =
    join_dots (present u.result (present u.trace (present u.video (present u.a11y []))))

abbrev pub artifacts_line : Option ArtifactUrls → String
artifacts_line none = ""
artifacts_line (some urls) =
    if is_empty_str (artifact_refs urls)
    then ""
    else concat ("   artifacts: " ∷ artifact_refs urls ∷ "\n" ∷ [])

unfoldable pub render_scenario_block : ℕ → Failure → String
render_scenario_block n f = concat (
    decimal n
    ∷ ". \""
    ∷ sanitize f.scenario
    ∷ "\"\n"
    ∷ line_of "   feature:   " f.feature_file
    ∷ line_of "   step:      " f.step
    ∷ line_of "   assertion: " f.assertion
    ∷ artifacts_line f.artifact_urls
    ∷ [])

abbrev pub marker_reserve : ℕ
marker_reserve = 48

abbrev pub header_of : ℕ → String
header_of total = concat ("harness reported " ∷ decimal total ∷ " failing scenario(s):\n\n" ∷ [])

abbrev pub bundle_of : Option String → String
bundle_of none = ""
bundle_of (some b) = concat (" (bundle '" ∷ sanitize b ∷ "')" ∷ [])

abbrev pub footer_of : Manifest → String → String
footer_of manifest run_url = concat (
    "(diagnostics from bridge.json schema_version="
    ∷ decimal manifest.schema_version
    ∷ "; full artifacts at "
    ∷ (if is_empty_str run_url then "the CI run" else sanitize run_url)
    ∷ bundle_of manifest.artifact_bundle_name
    ∷ ")"
    ∷ [])

-- The loop over the scenarios: the text and how many of them it has
unfoldable pub render_scenarios : ℕ → ℕ → ℕ → String → List Failure → String × ℕ
render_scenarios max_bytes footer rendered out [] = (out, rendered)
render_scenarios max_bytes footer rendered out (f ∷ rest) =
    let block = render_scenario_block (rendered + 1) f in
    let next =
      render_scenarios max_bytes footer (rendered + 1) (concat (out ∷ block ∷ "\n" ∷ [])) rest in
    if ltb 0 rendered && ltb max_bytes (size out + size block + footer + marker_reserve)
    then (out, rendered)
    else next

abbrev pub marker_of : ℕ → String
marker_of dropped =
    if ltb 0 dropped
    then concat ("…(" ∷ decimal dropped ∷ " more scenario(s) truncated)\n\n" ∷ [])
    else ""

abbrev pub total_of : Manifest → ℕ
total_of manifest = max manifest.total_failures (length manifest.failures)

unfoldable pub build_failure_digest : Manifest → String → HarnessManifestSection → String
build_failure_digest manifest run_url cfg =
    let footer = footer_of manifest run_url in
    let (out, rendered) =
      render_scenarios cfg.max_failure_digest_bytes (size footer) 0 (header_of (total_of manifest))
        manifest.failures in
    concat (out ∷ marker_of (total_of manifest - rendered) ∷ footer ∷ [])

-- What an evaluation takes of the manifest: its digest, with the run's address or the pull request's
abbrev pub digest_of : HarnessManifestSection → String → Option Manifest → Option String
digest_of cfg pr_url none = none
digest_of cfg pr_url (some m) = some (build_failure_digest m (unwrap_or m.run_url pr_url) cfg)

unfoldable pub fetch_digest :
    Artifacts → HarnessManifestSection → String → ℕ → String → World → Option String × World
fetch_digest src cfg repo run_id pr_url w =
    (digest_of cfg pr_url (try_fetch_manifest src cfg repo run_id), w)
