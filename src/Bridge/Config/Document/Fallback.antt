-- ===== src/Bridge/Config/Document/Fallback.antt =====
-- A configuration that was read can place every failure.
use sinfonia.Base.{
  ◌≡◌, ◌⊎◌, inl, inr, refl, subst, ap, ◌∙◌, eq_iff, String, true, Option, none, some, List, [], ◌∷◌,
  ◌++◌, any, find, str_eq, arith, Bool-cases,
}
use sinfonia.Json.{Json, null, boolean, integer, float, text, array, object}
use sinfonia.Bridge.Types.{
  bridge_parse_error, Result, ok, err, FailureCategory, FeedbackLoopSection, BridgeConfig,
}
use sinfonia.Bridge.Config.Defaults.{Platform, ◌>>=◌, ◌>>◌}
use sinfonia.Bridge.Config.Sections.{
  parse_failure_categories, parse_categories, with_default, default_category_at,
  parse_feedback_loop,
}
use sinfonia.Bridge.Config.Validate.{validate}
use sinfonia.Bridge.Config.Validate.Accepted.{IsValid, validate-IsValid}
use sinfonia.Bridge.Config.Document.{parse_config, parse_bridge_str, split_front_matter, config_of}
use sinfonia.Bridge.Feedback.Categorize.Priority.{IsBest, categorize_lem}
use sinfonia.Bridge.Feedback.Categorize.{categorize, default_category}

-- A chain that ends well has a first step that did.
pub bind_ok :
    {A B : Type 0} (first : Result A) (next : A → Result B) {last : B}
    → (first >>= next) ≡ ok last
    → (value : A) × (first ≡ ok value) × (next value ≡ ok last)
unfolding ◌>>=◌
bind_ok (ok value) next chain = (value, refl, chain)
bind_ok (err cause) next chain = absurd (cc chain)

abbrev pub HasDefault : List FailureCategory → Type 0
HasDefault cs = any (λ (c : FailureCategory). str_eq c.name "default") cs ≡ true

any_last :
    (cs : List FailureCategory) (c : FailureCategory)
    → str_eq c.name "default" ≡ true
    → HasDefault (cs ++ c ∷ [])
any_last [] c h = rw (h) refl
any_last (x ∷ xs) c h = ground (arith, any_last xs c h)

with_default-HasDefault :
    (state : String) (cs : List FailureCategory) → HasDefault (with_default state cs)
unfolding with_default
with_default-HasDefault state cs =
    elim (Bool-cases (any (λ (c : FailureCategory). str_eq c.name "default") cs)) [
      | inl e ↦ rw (e) e
      | inr e ↦ rw (e) (any_last cs (default_category_at state) refl)
    ]

then_same :
    {A : Type 0} (check : A → Result (Unit {0})) (a b : A)
    → (check a >> ok a) ≡ ok b
    → check b ≡ ok tt
then_same check a b h =
    let w = bind_ok (check a) (λ _. ok a) h in
    let same : a ≡ b = cc (w.2) in subst (λ c. check c ≡ ok tt) same w.1

whole : {A : Type 0} (check : A → Result (Unit {0})) (a b : A) → (check a >> ok a) ≡ ok b → a ≡ b
whole check a b h = cc ((bind_ok (check a) (λ _. ok a) h).2)

find_named :
    (cs : List FailureCategory)
    → HasDefault cs
    → (d : FailureCategory) × (find (λ c. str_eq c.name "default") cs ≡ some d)
      × (d.name ≡ "default")
find_named [] h = cc h
find_named (c ∷ rest) h = elim (Bool-cases (str_eq c.name "default")) [
  | inl e ↦ rw (e) (c, refl, (eq_iff c.name "default").0 e)
  | inr e ↦ rw (e) (find_named rest (ground (arith, h, e)))
]

default_of :
    (cs : List FailureCategory)
    → HasDefault cs
    → (d : FailureCategory) × (default_category cs ≡ some d) × (d.name ≡ "default")
unfolding default_category
default_of [] h = cc h
default_of (c ∷ rest) h =
    let d = find_named (c ∷ rest) h in (d.0, rw (d.1, default_category) refl, d.2)

-- A failed run has a category: the best of those that it hits, or one named `default`.
abbrev pub Placed : List String → List FailureCategory → Type 0
Placed failed cs =
    (c : FailureCategory) × (categorize failed cs ≡ some c)
    × (IsBest failed cs c ⊎ (c.name ≡ "default"))

HasDefault-Placed :
    (failed : List String) (cs : List FailureCategory) → HasDefault cs → Placed failed cs
HasDefault-Placed failed cs h = elim (categorize_lem failed cs) [
  | inl hit ↦ (hit.0, hit.1, inl hit.2)
  | inr miss ↦ let d = default_of cs h in (d.0, miss.1 ∙ d.1, inr d.2)
]

module _ (sys : Platform) where
  categories-HasDefault :
      (v : Option Json) (state : String) (cs : List FailureCategory)
      → parse_failure_categories sys v state ≡ ok cs
      → HasDefault cs
  unfolding parse_failure_categories
  categories-HasDefault none state cs h = ground (arith, h)
  categories-HasDefault (some null) state cs h = ground (arith, h)
  categories-HasDefault (some (array items)) state cs h =
      let t = bind_ok (parse_categories sys 0 items) _ h in
      let same : with_default state t.0 ≡ cs = cc (t.2) in
      subst HasDefault same (with_default-HasDefault state t.0)
  categories-HasDefault (some (boolean b)) state cs h = cc h
  categories-HasDefault (some (integer n)) state cs h = cc h
  categories-HasDefault (some (float x)) state cs h = cc h
  categories-HasDefault (some (text s)) state cs h = cc h
  categories-HasDefault (some (object fs)) state cs h = cc h

  feedback_loop-HasDefault :
      (config : Option Json) (f : FeedbackLoopSection)
      → parse_feedback_loop sys config ≡ ok f
      → HasDefault f.failure_categories
  unfolding parse_feedback_loop
  feedback_loop-HasDefault config f h =
      let t = bind_ok _ _ h in
      let u = bind_ok _ _ t.2 in
      let same : u.0 ≡ f.failure_categories = cc (u.2) in
      subst HasDefault same (categories-HasDefault _ _ u.0 u.1)

  parse_config_parts :
      (config : Json) (cfg : BridgeConfig)
      → parse_config sys config ≡ ok cfg
      → (validate sys.to_lowercase cfg ≡ ok tt) × HasDefault cfg.feedback_loop.failure_categories
  unfolding parse_config
  parse_config_parts config cfg h =
      let t = bind_ok _ _ h in
      let u = bind_ok _ _ t.2 in
      let v = bind_ok _ _ u.2 in
      let loop : u.0 ≡ cfg.feedback_loop =
        ap (λ c. c.feedback_loop) (whole (validate sys.to_lowercase) _ cfg v.2) in
      (
        then_same (validate sys.to_lowercase) _ cfg v.2,
        subst (λ l. HasDefault l.failure_categories) loop (feedback_loop-HasDefault _ u.0 u.1),
      )

  -- A BRIDGE.md that is read without an error gives a configuration that the validation accepts, and
  -- in which every failed run has a category, whatever checks failed, so that the evaluation does not
  -- panic: the best of those that it hits, or one named `default`.
  pub parse_bridge_str-IsValid :
      (file : String) (cfg : BridgeConfig)
      → parse_bridge_str sys file ≡ ok cfg
      → IsValid sys.to_lowercase cfg
        × ((failed : List String) → Placed failed cfg.feedback_loop.failure_categories)
  unfolding parse_bridge_str
  parse_bridge_str-IsValid file cfg h = of_parts (read_ok (split_front_matter file) cfg h)
    where
      read_ok :
          (fm : Option String) (cfg : BridgeConfig)
          → elim fm [
            | none ↦
                err (bridge_parse_error "BRIDGE.md has no YAML front matter (expected `---` fence)")
            | some fm ↦ config_of (sys.load_yaml fm) >>= parse_config sys
          ]
            ≡ ok cfg
          → (validate sys.to_lowercase cfg ≡ ok tt)
            × HasDefault cfg.feedback_loop.failure_categories
      read_ok none cfg h = cc h
      read_ok (some fm) cfg h =
          let t = bind_ok (config_of (sys.load_yaml fm)) (parse_config sys) h in
          parse_config_parts t.0 cfg t.2

      of_parts :
          (validate sys.to_lowercase cfg ≡ ok tt) × HasDefault cfg.feedback_loop.failure_categories
          → IsValid sys.to_lowercase cfg
            × ((failed : List String) → Placed failed cfg.feedback_loop.failure_categories)
      of_parts p = (
        (validate-IsValid sys.to_lowercase cfg).0 p.0,
        λ failed. HasDefault-Placed failed cfg.feedback_loop.failure_categories p.1,
      )
