-- ===== src/Bridge/Feedback/Categorize.antt =====
-- crates/sinfonia-bridge/src/feedback/categorize.rs: the category of a failed run.
pub mod Priority
use sinfonia.Base.{
  String, Bool, true, false, ◌||◌, Option, none, some, List, [], ◌∷◌, any, find, ℤ, compare_int,
  str_eq, if◌then◌else◌,
}
use Prim.Native.Nat.{Ordering}
use sinfonia.Bridge.Types.{FailureCategory}

-- `a >= b`
unfoldable pub geq_int : ℤ → ℤ → Bool
geq_int a b = elim (compare_int a b) [ Ordering.lt ↦ false | _ ↦ true ]

-- The first of those with the least priority: `min_by_key`
unfoldable pub min_by_priority : FailureCategory → List FailureCategory → FailureCategory
min_by_priority best [] = best
min_by_priority best (c ∷ rest) =
    min_by_priority (if geq_int c.priority best.priority then best else c) rest

-- None where there is no category: there the source panics.
unfoldable pub default_category : List FailureCategory → Option FailureCategory
default_category [] = none
default_category (c ∷ rest) = elim (find (λ c. str_eq c.name "default") (c ∷ rest)) [
  | some d ↦ some d
  | none ↦ some (min_by_priority c rest)
]

-- A category without a pattern is passed over.
unfoldable pub is_hit : List String → FailureCategory → Bool
is_hit failed_checks c = elim c.check_pattern [
  | none ↦ false
  | some is_match ↦ any is_match failed_checks
]

unfoldable pub better : Option FailureCategory → FailureCategory → FailureCategory
better none cat = cat
better (some prev) cat = if geq_int prev.priority cat.priority then prev else cat

unfoldable pub best_hit :
    List String → Option FailureCategory → List FailureCategory → Option FailureCategory
best_hit failed_checks best [] = best
best_hit failed_checks best (cat ∷ rest) =
    best_hit failed_checks (if is_hit failed_checks cat then some (better best cat) else best) rest

unfoldable pub categorize : List String → List FailureCategory → Option FailureCategory
categorize failed_checks categories = elim (best_hit failed_checks none categories) [
  | some c ↦ some c
  | none ↦ default_category categories
]
