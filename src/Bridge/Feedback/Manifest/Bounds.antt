-- ===== src/Bridge/Feedback/Manifest/Bounds.antt =====
-- The digest keeps to its limit and accounts for every scenario.
use Prim.Native.Char.{code}
use Prim.Native.String.{◌++◌ as append_str}
use text.Mathlib.TextLemmas.{nil-append, cons-append}
use sinfonia.Base.{
  ℕ, zero, suc, ◌+◌, ◌-◌, ◌*◌, ◌/◌, ◌%◌, ◌<◌, ◌≤◌, ◌≡◌, ◌∙◌, refl, ap, max, ltb, ◌==◌, String, Bool,
  true, false, ◌&&◌, List, [], ◌∷◌, length, length-append, as_bytes, char_bytes, digit, digits,
  concat, decimal, if◌then◌else◌, arith, Bool-cases, inl, inr,
}
use sinfonia.Bridge.Types.{HarnessManifestSection}
use sinfonia.Bridge.Feedback.Manifest.Shape.{Failure, Manifest, take}
use sinfonia.Bridge.Feedback.Manifest.Digest.{
  size, render_scenario_block, marker_reserve, header_of, footer_of, render_scenarios, marker_of,
  total_of, build_failure_digest,
}

size-append : (s t : String) → size (append_str s t) ≡ size s + size t
unfolding as_bytes
size-append String.[] t = ap size (nil-append t) ∙ omega arith
size-append (String.◌∷◌ c s) t =
    ap size (cons-append c s t)
    ∙ omega (
      arith,
      length-append (char_bytes (code c)) (as_bytes (append_str s t)),
      length-append (char_bytes (code c)) (as_bytes s),
      size-append s t,
    )

size-concat :
    (s : String) (rest : List String) → size (concat (s ∷ rest)) ≡ size s + size (concat rest)
unfolding concat
size-concat s rest = size-append s (concat rest)

size-nothing : size (concat []) ≡ 0
unfolding concat as_bytes
size-nothing = refl

size-two : (a b : String) → size (concat (a ∷ b ∷ [])) ≡ size a + size b
size-two a b = omega (arith, size-concat a (b ∷ []), size-concat b [], size-nothing)

size-three : (a b c : String) → size (concat (a ∷ b ∷ c ∷ [])) ≡ size a + (size b + size c)
size-three a b c = omega (
  arith,
  size-concat a (b ∷ c ∷ []),
  size-two b c,
  size-concat b (c ∷ []),
  size-concat c [],
  size-nothing,
)

either_size : (b : Bool) (s t : String) → size s ≡ 1 → size t ≡ 1 → size (if b then s else t) ≡ 1
either_size true s t h k = h
either_size false s t h k = k

size-digit : (d : ℕ) → size (digit d) ≡ 1
unfolding as_bytes
size-digit d = either_size (d == 0) "0" _ refl (
    either_size (d == 1) "1" _ refl (
      either_size (d == 2) "2" _ refl (
        either_size (d == 3) "3" _ refl (
          either_size (d == 4) "4" _ refl (
            either_size (d == 5) "5" _ refl (
              either_size (d == 6) "6" _ refl
                (either_size (d == 7) "7" _ refl (either_size (d == 8) "8" "9" refl refl))))))))

-- A number below 10 ^ k has at most k digits.
abbrev pow10 : ℕ → ℕ
pow10 zero = 1
pow10 (suc k) = 10 * pow10 k

size-digits : (fuel n k : ℕ) → n < pow10 (suc k) → size (digits fuel n) ≤ suc k
unfolding as_bytes
size-digits zero n k h = omega arith
size-digits (suc fuel) n zero h = rw (few, digits) (omega (arith, size-digit n))
  where
    few : ltb n 10 ≡ true
    few = ground (arith, h)
size-digits (suc fuel) n (suc k) h = elim (Bool-cases (ltb n 10)) [
  | inl e ↦ rw (e, digits) (omega (arith, size-digit n))
  | inr e ↦
      rw (e, digits)
        (omega (
          arith,
          size-append (digits fuel (n / 10)) (digit (n % 10)),
          size-digit (n % 10),
          size-digits fuel (n / 10) k (omega (arith, h)),
        ))
]

size-decimal : (n : ℕ) → n < 10000000000000 → size (decimal n) ≤ 13
unfolding decimal
size-decimal n h = size-digits (suc n) n 12 (omega (arith, h))

size-marker : (n : ℕ) → n < 10000000000000 → size (marker_of n) ≤ 47
unfolding as_bytes
size-marker n h = elim (Bool-cases (ltb 0 n)) [
  | inl e ↦ rw (e) (
      omega
        (arith, size-three "…(" (decimal n) " more scenario(s) truncated)\n\n", size-decimal n h))
  | inr e ↦ rw (e) (omega arith)
]

-- The room that the first scenario takes, whatever the limit
abbrev pub first_block : List Failure → ℕ
first_block [] = 0
first_block (f ∷ rest) = size (render_scenario_block 1 f)

abbrev pub least_room : Manifest → String → ℕ
least_room m run_url =
    size (header_of (total_of m))
    + first_block m.failures
    + size (footer_of m run_url)
    + marker_reserve

next_size :
    (out block : String) → size (concat (out ∷ block ∷ "\n" ∷ [])) ≡ size out + size block + 1
unfolding as_bytes
next_size out block = omega (arith, size-three out block "\n")

render_scenarios_later :
    (limit footer rendered room : ℕ) (out : String) (fs : List Failure)
    → 1 ≤ rendered
    → limit ≤ room
    → size out + footer + 47 ≤ room
    → size (render_scenarios limit footer rendered out fs).0 + footer + 47 ≤ room
unfolding render_scenarios
render_scenarios_later limit footer rendered room out [] some_ le h = h
render_scenarios_later limit footer rendered room out (f ∷ rest) some_ le h =
    let block = render_scenario_block (rendered + 1) f in
    elim (Bool-cases
      (ltb 0 rendered && ltb limit (size out + size block + footer + marker_reserve))) [
        | inl e ↦ rw (e) h
        | inr e ↦ rw (e) (
            render_scenarios_later limit footer (rendered + 1) room
              (concat (out ∷ block ∷ "\n" ∷ [])) rest (omega arith) le
              (fits block (ground (arith, e, some_))))
      ]
  where
    fits :
        (block : String)
        → size out + size block + footer + 48 ≤ limit
        → size (concat (out ∷ block ∷ "\n" ∷ [])) + footer + 47 ≤ room
    fits block short = omega (arith, next_size out block, short, le)

render_scenarios_first :
    (limit footer room : ℕ) (out : String) (fs : List Failure)
    → limit ≤ room
    → size out + first_block fs + footer + 48 ≤ room
    → size (render_scenarios limit footer 0 out fs).0 + footer + 47 ≤ room
unfolding render_scenarios
render_scenarios_first limit footer room out [] le h = omega (arith, h)
render_scenarios_first limit footer room out (f ∷ rest) le h =
    render_scenarios_later limit footer 1 room
      (concat (out ∷ render_scenario_block 1 f ∷ "\n" ∷ [])) rest (omega arith) le
      (omega (arith, next_size out (render_scenario_block 1 f), h))

-- The blocks of some scenarios, numbered on
abbrev pub with_blocks : ℕ → String → List Failure → String
with_blocks n out [] = out
with_blocks n out (f ∷ rest) =
    with_blocks (n + 1) (concat (out ∷ render_scenario_block (n + 1) f ∷ "\n" ∷ [])) rest

-- The loop renders the first scenarios, in order.
abbrev Shows : ℕ → String → List Failure → String × ℕ → Type 0
Shows rendered out fs r =
    (n : ℕ) × (n ≤ length fs) × (r.0 ≡ with_blocks rendered out (take n fs)) × (r.1 ≡ rendered + n)

render_scenarios-Shows :
    (limit footer rendered : ℕ) (out : String) (fs : List Failure)
    → Shows rendered out fs (render_scenarios limit footer rendered out fs)
unfolding render_scenarios take
render_scenarios-Shows limit footer rendered out [] = (0, omega arith, refl, omega arith)
render_scenarios-Shows limit footer rendered out (f ∷ rest) =
    let block = render_scenario_block (rendered + 1) f in
    let (n, le, text, count) =
      render_scenarios-Shows limit footer (rendered + 1) (concat (out ∷ block ∷ "\n" ∷ [])) rest in
    elim (Bool-cases
      (ltb 0 rendered && ltb limit (size out + size block + footer + marker_reserve))) [
        | inl e ↦ rw (e) (0, omega arith, refl, omega arith)
        | inr e ↦ rw (e) (suc n, omega (arith, le), text, omega (arith, count))
      ]

-- What a digest is: its header, the first `shown` scenarios, the number of the others, and its footer
pub record IsDigest (m : Manifest) (run_url : String) (limit : ℕ) (text : String) : Type 0 where
  pub shown : ℕ
  pub among : shown ≤ length m.failures
  pub whole :
      text
      ≡ concat (
          with_blocks 0 (header_of (total_of m)) (take shown m.failures)
          ∷ marker_of (total_of m - shown)
          ∷ footer_of m run_url
          ∷ [])
  pub short : size text ≤ max limit (least_room m run_url)

-- A digest has its header, the first scenarios in order, the exact number of those left out, and its
-- footer. Of fewer than 10 ^ 13 scenarios it has at most max_failure_digest_bytes bytes, or what the
-- first scenario alone takes.
pub build_failure_digest-IsDigest :
    (m : Manifest) (run_url : String) (cfg : HarnessManifestSection)
    → total_of m < 10000000000000
    → IsDigest m run_url cfg.max_failure_digest_bytes (build_failure_digest m run_url cfg)
unfolding build_failure_digest
build_failure_digest-IsDigest m run_url cfg few =
    let header = header_of (total_of m) in
    let footer = footer_of m run_url in
    let limit = cfg.max_failure_digest_bytes in
    let r = render_scenarios limit (size footer) 0 header m.failures in
    let (n, le, text, count) = render_scenarios-Shows limit (size footer) 0 header m.failures in
    let room = max limit (least_room m run_url) in
    let fits : size r.0 + size footer + 47 ≤ room =
      render_scenarios_first limit (size footer) room header m.failures (omega arith)
        (omega arith) in
    let left : r.1 ≡ n = omega (arith, count) in
    record {
      shown = n;
      among = le;
      whole = rw (text, left) refl;
      short = omega (
        arith,
        fits,
        size-three r.0 (marker_of (total_of m - r.1)) footer,
        size-marker (total_of m - r.1) (omega (arith, few)),
      );
    }
