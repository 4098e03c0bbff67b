-- ===== src/Daemon/Orchestrator/Dispatch/Order.antt =====
-- The order in which `sort_for_dispatch` hands out issues.
use Prim.Native.Nat.{Ordering}
use Prim.Native.String.{compare as compare_str}
use mathlib.Core.List.{Perm}
use sinfonia.Base.{
  ◌⊎◌, inl, inr, ◌↔◌, ◌<◌, ◌∙◌, ap, refl, Option, [], ◌∷◌, All, zero, suc, ℕ, ◌≡◌, ◌≢◌, none, some,
  List, ℤ, pos, negsuc, arith,
}
use sinfonia.Base.Order.{
  sort_by, then_by, reverse_order, compare_option, IsComparison, then_by-IsComparison,
  comap-IsComparison, compare_nat-IsComparison, compare_int-IsComparison,
  compare_option-IsComparison, compare_str-IsComparison, sort_by-perm, sort_by-IsSorted,
  class_of-sort_by, IsSorted, class_of,
}
use sinfonia.Domain.{Issue}
use sinfonia.Daemon.Orchestrator.Dispatch.{
  dispatch_order, sort_for_dispatch, priority_key, compare_key,
}

compare_key-IsComparison : IsComparison compare_key
compare_key-IsComparison =
    then_by-IsComparison (comap-IsComparison (λ (k : ℕ × ℤ). k.0) compare_nat-IsComparison)
      (comap-IsComparison (λ (k : ℕ × ℤ). k.1) compare_int-IsComparison)

pub dispatch_order-IsComparison : IsComparison dispatch_order
unfolding dispatch_order
dispatch_order-IsComparison =
    then_by-IsComparison
      (then_by-IsComparison
        (comap-IsComparison (λ (a : Issue). priority_key a.priority) compare_key-IsComparison)
        (comap-IsComparison (λ (a : Issue). a.created_at) compare_option-IsComparison))
      (comap-IsComparison (λ (a : Issue). a.identifier) compare_str-IsComparison)

-- The more urgent of two priorities: a smaller one, 0 behind all others, and none behind 0
abbrev pub Urgent : Option ℤ → Option ℤ → Type 0
Urgent none q = ⊥
Urgent (some (pos zero)) none = Unit
Urgent (some (pos zero)) (some q) = ⊥
Urgent (some (pos (suc n))) none = Unit
Urgent (some (pos (suc n))) (some (pos zero)) = Unit
Urgent (some (pos (suc n))) (some (pos (suc m))) = n < m
Urgent (some (pos (suc n))) (some (negsuc m)) = ⊥
Urgent (some (negsuc n)) none = Unit
Urgent (some (negsuc n)) (some (pos m)) = Unit
Urgent (some (negsuc n)) (some (negsuc m)) = m < n

-- The older of two times, an unknown one first
abbrev pub Older : Option ℕ → Option ℕ → Type 0
Older none none = ⊥
Older none (some b) = Unit
Older (some a) none = ⊥
Older (some a) (some b) = a < b

-- By urgency, then by age, then by identifier
abbrev pub Before : Issue → Issue → Type 0
Before a b =
    Urgent a.priority b.priority
    ⊎ ((a.priority ≡ b.priority)
        × (Older a.created_at b.created_at
            ⊎ ((a.created_at ≡ b.created_at)
                × (compare_str a.identifier b.identifier ≡ Ordering.lt))))

Urgent-iff :
    (p q : Option ℤ) → (compare_key (priority_key p) (priority_key q) ≡ Ordering.lt) ↔ Urgent p q
Urgent-iff none none = (λ h. ground (arith, h), λ h. ground (arith, h))
Urgent-iff none (some (pos zero)) = (λ h. ground (arith, h), λ h. ground (arith, h))
Urgent-iff none (some (pos (suc m))) = (λ h. ground (arith, h), λ h. ground (arith, h))
Urgent-iff none (some (negsuc m)) = (λ h. ground (arith, h), λ h. ground (arith, h))
Urgent-iff (some (pos zero)) none = (λ h. ground (arith, h), λ h. ground (arith, h))
Urgent-iff (some (pos zero)) (some (pos zero)) = (λ h. ground (arith, h), λ h. ground (arith, h))
Urgent-iff (some (pos zero)) (some (pos (suc m))) = (λ h. ground (arith, h), λ h. ground (arith, h))
Urgent-iff (some (pos zero)) (some (negsuc m)) = (λ h. ground (arith, h), λ h. ground (arith, h))
Urgent-iff (some (pos (suc n))) none = (λ h. ground (arith, h), λ h. ground (arith, h))
Urgent-iff (some (pos (suc n))) (some (pos zero)) = (λ h. ground (arith, h), λ h. ground (arith, h))
Urgent-iff (some (pos (suc n))) (some (pos (suc m))) =
    (λ h. ground (arith, h), λ h. ground (arith, h))
Urgent-iff (some (pos (suc n))) (some (negsuc m)) = (λ h. ground (arith, h), λ h. ground (arith, h))
Urgent-iff (some (negsuc n)) none = (λ h. ground (arith, h), λ h. ground (arith, h))
Urgent-iff (some (negsuc n)) (some (pos zero)) = (λ h. ground (arith, h), λ h. ground (arith, h))
Urgent-iff (some (negsuc n)) (some (pos (suc m))) = (λ h. ground (arith, h), λ h. ground (arith, h))
Urgent-iff (some (negsuc n)) (some (negsuc m)) = (λ h. ground (arith, h), λ h. ground (arith, h))

same_priority_iff :
    (p q : Option ℤ) → (compare_key (priority_key p) (priority_key q) ≡ Ordering.eq) ↔ (p ≡ q)
same_priority_iff none none = (λ h. refl, λ h. refl)
same_priority_iff none (some (pos zero)) = (λ h. cc h, λ h. cc h)
same_priority_iff none (some (pos (suc m))) = (λ h. cc h, λ h. cc h)
same_priority_iff none (some (negsuc m)) = (λ h. cc h, λ h. cc h)
same_priority_iff (some (pos zero)) none = (λ h. cc h, λ h. cc h)
same_priority_iff (some (pos zero)) (some (pos zero)) = (λ h. refl, λ h. refl)
same_priority_iff (some (pos zero)) (some (pos (suc m))) = (λ h. cc h, λ h. cc h)
same_priority_iff (some (pos zero)) (some (negsuc m)) = (λ h. cc h, λ h. cc h)
same_priority_iff (some (pos (suc n))) none = (λ h. cc h, λ h. cc h)
same_priority_iff (some (pos (suc n))) (some (pos zero)) = (λ h. cc h, λ h. cc h)
same_priority_iff (some (pos (suc n))) (some (pos (suc m))) = (
  λ h. let same : n ≡ m = ground (arith, h) in ap (λ x. some (pos (suc x))) same,
  λ h. let same : n ≡ m = cc h in ground (arith, same),
)
same_priority_iff (some (pos (suc n))) (some (negsuc m)) = (λ h. cc h, λ h. cc h)
same_priority_iff (some (negsuc n)) none = (λ h. cc h, λ h. cc h)
same_priority_iff (some (negsuc n)) (some (pos zero)) = (λ h. cc h, λ h. cc h)
same_priority_iff (some (negsuc n)) (some (pos (suc m))) = (λ h. cc h, λ h. cc h)
same_priority_iff (some (negsuc n)) (some (negsuc m)) = (
  λ h. let same : n ≡ m = ground (arith, h) in ap (λ x. some (negsuc x)) same,
  λ h. let same : n ≡ m = cc h in ground (arith, same),
)

Older-iff : (a b : Option ℕ) → (compare_option a b ≡ Ordering.lt) ↔ Older a b
Older-iff none none = (λ h. cc h, λ h. absurd h)
Older-iff none (some b) = (λ h. tt, λ h. refl)
Older-iff (some a) none = (λ h. cc h, λ h. absurd h)
Older-iff (some a) (some b) = (λ h. ground (arith, h), λ h. ground (arith, h))

same_age_iff : (a b : Option ℕ) → (compare_option a b ≡ Ordering.eq) ↔ (a ≡ b)
same_age_iff none none = (λ h. refl, λ h. refl)
same_age_iff none (some b) = (λ h. cc h, λ h. cc h)
same_age_iff (some a) none = (λ h. cc h, λ h. cc h)
same_age_iff (some a) (some b) = (
  λ h. let same : a ≡ b = ground (arith, h) in ap some same,
  λ h. let same : a ≡ b = cc h in ground (arith, same),
)

-- The first of two comparisons that tells
then_by_iff :
    (x y : Ordering) (A B C : Type 0)
    → (x ≡ Ordering.lt) ↔ A
    → (x ≡ Ordering.eq) ↔ B
    → (y ≡ Ordering.lt) ↔ C
    → (then_by x y ≡ Ordering.lt) ↔ (A ⊎ (B × C))
then_by_iff Ordering.lt y A B C a b c = (λ h. inl (a.0 refl), λ h. refl)
then_by_iff Ordering.eq y A B C a b c =
    (λ h. inr (b.0 refl, c.0 h), λ h. elim h [ inl q ↦ cc (a.1 q) | inr q ↦ c.1 q.1 ])
then_by_iff Ordering.gt y A B C a b c =
    (λ h. cc h, λ h. elim h [ inl q ↦ cc (a.1 q) | inr q ↦ cc (b.1 q.0) ])

regroup : (x y z : Ordering) → then_by (then_by x y) z ≡ then_by x (then_by y z)
regroup Ordering.lt y z = refl
regroup Ordering.eq y z = refl
regroup Ordering.gt y z = refl

dispatch_order_iff : (a b : Issue) → (dispatch_order a b ≡ Ordering.lt) ↔ Before a b
unfolding dispatch_order
dispatch_order_iff a b =
    rw
      (regroup (compare_key (priority_key a.priority) (priority_key b.priority))
        (compare_option a.created_at b.created_at) (compare_str a.identifier b.identifier))
      (then_by_iff _ _ _ _ _ (Urgent-iff a.priority b.priority)
        (same_priority_iff a.priority b.priority)
        (then_by_iff _ _ _ _ _ (Older-iff a.created_at b.created_at)
          (same_age_iff a.created_at b.created_at) (λ h. h, λ h. h)))

-- No issue that has to come before another stands behind it.
abbrev pub InOrder : List Issue → Type 0
InOrder [] = Unit
InOrder (a ∷ rest) = All (λ b. ¬ Before b a) rest × InOrder rest

not_behind : (a b : Issue) → dispatch_order a b ≢ Ordering.gt → ¬ Before b a
not_behind a b n h = n (
    dispatch_order-IsComparison.flip b a ∙ ap (λ o. reverse_order o) ((dispatch_order_iff b a).1 h))

All-not_behind :
    (a : Issue) (rest : List Issue)
    → All (λ b. dispatch_order a b ≢ Ordering.gt) rest
    → All (λ b. ¬ Before b a) rest
All-not_behind a [] h = tt
All-not_behind a (b ∷ rest) h = (not_behind a b h.0, All-not_behind a rest h.1)

IsSorted-InOrder : (xs : List Issue) → IsSorted dispatch_order xs → InOrder xs
IsSorted-InOrder [] h = tt
IsSorted-InOrder (a ∷ rest) h = (All-not_behind a rest h.0, IsSorted-InOrder rest h.1)

-- The sort returns the same issues. None stands behind an issue that it has to come before: by the
-- smaller priority, where 0 comes behind all others and none behind 0, then by the older creation, an
-- unknown one first, then by the identifier. Issues that compare as equal keep their order.
pub sort_for_dispatch_lem :
    (issues : List Issue)
    → Perm (sort_for_dispatch issues) issues
      × InOrder (sort_for_dispatch issues)
      × ((key : Issue)
          → class_of dispatch_order key (sort_for_dispatch issues)
            ≡ class_of dispatch_order key issues)
unfolding sort_for_dispatch
sort_for_dispatch_lem issues = (
  sort_by-perm dispatch_order issues,
  IsSorted-InOrder (sort_by dispatch_order issues)
      (sort_by-IsSorted dispatch_order dispatch_order-IsComparison issues),
  λ key. class_of-sort_by dispatch_order dispatch_order-IsComparison key issues,
)

-- An issue with a priority other than 0 comes before each issue that has none or priority 0,
-- whatever their ages and identifiers.
pub unprioritised_last :
    (a b : Issue) (n : ℤ)
    → a.priority ≡ some n
    → n ≢ pos 0
    → (b.priority ≡ none) ⊎ (b.priority ≡ some (pos 0))
    → dispatch_order a b ≡ Ordering.lt
unfolding dispatch_order
unprioritised_last a b n p nz q = ground arith
