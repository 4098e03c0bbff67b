-- ===== src/Bridge/Config/Validate/Priorities.antt =====
-- The check of the priorities: it sees a clash only between categories that follow each other.
use sinfonia.Base.{
  ◌≡◌, ◌↔◌, inl, inr, refl, subst, ◌∙◌, String, Bool, true, false, not, Option, none, some, List,
  [], ◌∷◌, ℤ, pos, negsuc, arith, Bool-cases, if◌then◌else◌, ◌⊎◌, str_eq, eq_iff,
}
use sinfonia.Bridge.Types.{ok, FailureCategory}
use sinfonia.Bridge.Config.Validate.{same_int, last_name, may_share, check_priorities}
use sinfonia.Bridge.Config.Validate.Rules.{refuse_if_iff, then_iff}

-- Of two categories that follow each other under a priority, one is `default`.
abbrev pub next_name : ℤ → List FailureCategory → Option String
next_name p [] = none
next_name p (c ∷ rest) = if same_int c.priority p then some c.name else next_name p rest

abbrev pub Shares : Option String → String → Type 0
Shares none name = Unit
Shares (some next) name = (next ≡ "default") ⊎ (name ≡ "default")

abbrev pub Separated : List FailureCategory → Type 0
Separated [] = Unit
Separated (c ∷ rest) = Shares (next_name c.priority rest) c.name × Separated rest

-- The same by the code's test
abbrev Tested : List FailureCategory → Type 0
Tested [] = Unit
Tested (c ∷ rest) = (may_share (next_name c.priority rest) c.name ≡ true) × Tested rest

may_share_iff : (o : Option String) (name : String) → (may_share o name ≡ true) ↔ Shares o name
may_share_iff none name = (λ h. tt, λ h. refl)
may_share_iff (some next) name = (
  λ h. elim (Bool-cases (str_eq next "default")) [
    | inl e ↦ inl ((eq_iff next "default").0 e)
    | inr e ↦ inr ((eq_iff name "default").0 (ground (arith, h, e)))
  ],
  λ h. elim h [
    | inl e ↦ rw ((eq_iff next "default").1 e) refl
    | inr e ↦ ground (arith, (eq_iff name "default").1 e)
  ],
)

Tested-iff : (cs : List FailureCategory) → Tested cs ↔ Separated cs
Tested-iff [] = (λ h. tt, λ h. tt)
Tested-iff (c ∷ rest) =
    let one = may_share_iff (next_name c.priority rest) c.name in
    let others = Tested-iff rest in (λ h. (one.0 h.0, others.0 h.1), λ h. (one.1 h.0, others.1 h.1))

abbrev joins : Option String → Option String → Bool
joins seen none = true
joins seen (some name) = may_share seen name

same_int_iff : (a b : ℤ) → (same_int a b ≡ true) ↔ (a ≡ b)
same_int_iff (pos a) (pos b) = (λ h. ground (arith, h), λ h. ground (arith, h))
same_int_iff (pos a) (negsuc b) = (λ h. cc h, λ h. cc h)
same_int_iff (negsuc a) (pos b) = (λ h. cc h, λ h. cc h)
same_int_iff (negsuc a) (negsuc b) = (λ h. ground (arith, h), λ h. ground (arith, h))

may_share_comm : (o : Option String) (a : String) → joins (some a) o ≡ may_share o a
may_share_comm none a = refl
may_share_comm (some b) a = ground arith

-- What the priorities seen say of the rest
abbrev Joined : List (ℤ × String) → List FailureCategory → Type 0
Joined seen cs = (p : ℤ) → joins (last_name p seen) (next_name p cs) ≡ true

Joined-step :
    (seen : List (ℤ × String)) (c : FailureCategory) (rest : List FailureCategory)
    → ((may_share (last_name c.priority seen) c.name ≡ true)
        × Joined ((c.priority, c.name) ∷ seen) rest)
      ↔ (Joined seen (c ∷ rest) × (may_share (next_name c.priority rest) c.name ≡ true))
unfolding last_name
Joined-step seen c rest = (
  λ h. (
    λ p. elim (Bool-cases (same_int c.priority p)) [
      | inl e ↦
          let q : c.priority ≡ p = (same_int_iff c.priority p).0 e in
          rw (e) (subst (λ r. may_share (last_name r seen) c.name ≡ true) q h.0)
      | inr e ↦ rw (e) (ground (arith, e, h.1 p))
    ],
    ground (
      arith,
      h.1 c.priority,
      (same_int_iff c.priority c.priority).1 refl,
      may_share_comm (next_name c.priority rest) c.name,
    ),
  ),
  λ h. (
    ground (arith, h.0 c.priority, (same_int_iff c.priority c.priority).1 refl),
    λ p. elim (Bool-cases (same_int c.priority p)) [
      | inl e ↦
          let q : c.priority ≡ p = (same_int_iff c.priority p).0 e in
          rw (e) (
            may_share_comm (next_name p rest) c.name
            ∙ subst (λ r. may_share (next_name r rest) c.name ≡ true) q h.1)
      | inr e ↦ rw (e) (ground (arith, e, h.0 p))
    ],
  ),
)

check_priorities_from :
    (seen : List (ℤ × String)) (cs : List FailureCategory)
    → (check_priorities seen cs ≡ ok tt) ↔ (Tested cs × Joined seen cs)
unfolding check_priorities
check_priorities_from seen [] = (λ h. (tt, λ p. refl), λ h. refl)
check_priorities_from seen (c ∷ rest) =
    let later = check_priorities_from ((c.priority, c.name) ∷ seen) rest in
    let step = Joined-step seen c rest in
    (
      λ h.
          let t = (then_iff _ _).0 h in
          let l = later.0 t.1 in
          let unshared : not (may_share (last_name c.priority seen) c.name) ≡ false =
            (refuse_if_iff _ _).0 t.0 in
          let shared : may_share (last_name c.priority seen) c.name ≡ true =
            ground (arith, unshared) in
          let j = step.0 (shared, l.1) in ((j.1, l.0), j.0),
      λ h.
          let j = step.1 (h.1, h.0.0) in
          (then_iff _ _).1 ((refuse_if_iff _ _).1 (rw (j.0) refl), later.1 (h.0.1, j.1)),
    )

pub check_priorities_iff :
    (cs : List FailureCategory) → (check_priorities [] cs ≡ ok tt) ↔ Separated cs
unfolding last_name
check_priorities_iff cs =
    let from = check_priorities_from [] cs in
    (
      λ h. (Tested-iff cs).0 (from.0 h).0,
      λ h. from.1 ((Tested-iff cs).1 h, λ p. joins_none (next_name p cs)),
    )
  where
    joins_none : (o : Option String) → joins none o ≡ true
    joins_none none = refl
    joins_none (some a) = refl
