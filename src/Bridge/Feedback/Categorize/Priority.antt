-- ===== src/Bridge/Feedback/Categorize/Priority.antt =====
-- The category of a run is the hit with the highest priority.
use sinfonia.Base.{
  ◌≡◌, refl, sym, ◌∙◌, subst, String, true, false, Option, none, some, List, [], ◌∷◌, ℤ, pos,
  negsuc, arith, All, Any, ◌⊎◌, inl, inr, Bool-cases,
}
use sinfonia.Bridge.Types.{FailureCategory}
use sinfonia.Bridge.Feedback.Categorize.{
  geq_int, default_category, is_hit, better, best_hit, categorize,
}

geq_int_refl : (a : ℤ) → geq_int a a ≡ true
unfolding geq_int
geq_int_refl (pos n) = ground arith
geq_int_refl (negsuc n) = ground arith

geq_int_trans : (a b c : ℤ) → geq_int a b ≡ true → geq_int b c ≡ true → geq_int a c ≡ true
unfolding geq_int
geq_int_trans (pos a) (pos b) (pos c) h k = ground (arith, h, k)
geq_int_trans (pos a) (pos b) (negsuc c) h k = ground (arith, h, k)
geq_int_trans (pos a) (negsuc b) (pos c) h k = ground (arith, h, k)
geq_int_trans (pos a) (negsuc b) (negsuc c) h k = ground (arith, h, k)
geq_int_trans (negsuc a) (pos b) (pos c) h k = ground (arith, h, k)
geq_int_trans (negsuc a) (pos b) (negsuc c) h k = ground (arith, h, k)
geq_int_trans (negsuc a) (negsuc b) (pos c) h k = ground (arith, h, k)
geq_int_trans (negsuc a) (negsuc b) (negsuc c) h k = ground (arith, h, k)

geq_int_total : (a b : ℤ) → geq_int a b ≡ false → geq_int b a ≡ true
unfolding geq_int
geq_int_total (pos a) (pos b) h = ground (arith, h)
geq_int_total (pos a) (negsuc b) h = ground (arith, h)
geq_int_total (negsuc a) (pos b) h = ground (arith, h)
geq_int_total (negsuc a) (negsuc b) h = ground (arith, h)

-- A hit of the list that no hit of the list beats
abbrev pub IsBest : List String → List FailureCategory → FailureCategory → Type 0
IsBest failed categories c =
    Any (λ d. d ≡ c) categories
    × (is_hit failed c ≡ true)
    × All (λ d. is_hit failed d ≡ true → geq_int c.priority d.priority ≡ true) categories

-- What the search ends with, from `best`
abbrev Ends :
    List String → Option FailureCategory → List FailureCategory → Option FailureCategory → Type 0
Ends failed best cats none = (best ≡ none) × All (λ d. is_hit failed d ≡ false) cats
Ends failed best cats (some c) =
    ((best ≡ some c) ⊎ (Any (λ d. d ≡ c) cats × (is_hit failed c ≡ true)))
    × ((b : FailureCategory) → best ≡ some b → geq_int c.priority b.priority ≡ true)
    × All (λ d. is_hit failed d ≡ true → geq_int c.priority d.priority ≡ true) cats

-- A category that is no hit changes nothing.
Ends-miss :
    (failed : List String) (best : Option FailureCategory) (cat : FailureCategory)
    (rest : List FailureCategory) (r : Option FailureCategory)
    → is_hit failed cat ≡ false
    → Ends failed best rest r
    → Ends failed best (cat ∷ rest) r
Ends-miss failed best cat rest none miss (e, h) = (e, (miss, h))
Ends-miss failed best cat rest (some c) miss (found, above, h) = (
  elim found [ inl e ↦ inl e | inr (there, hit) ↦ inr (inr there, hit) ],
  above,
  (λ hit. cc (hit, miss), h),
)

some_injective : (a b : FailureCategory) → some a ≡ some b → a ≡ b
some_injective a b e = cc e

-- The same category has the same priority.
geq-same : (a b : FailureCategory) → some a ≡ some b → geq_int a.priority b.priority ≡ true
geq-same a b e =
    subst (λ (z : FailureCategory). geq_int a.priority z.priority ≡ true) (some_injective a b e)
      (geq_int_refl a.priority)

-- The better of two is one of them, and beaten by neither.
better-geq :
    (best : Option FailureCategory) (cat : FailureCategory)
    → (geq_int (better best cat).priority cat.priority ≡ true)
      × ((b : FailureCategory)
          → best ≡ some b
          → geq_int (better best cat).priority b.priority ≡ true)
      × ((best ≡ some (better best cat)) ⊎ (better best cat ≡ cat))
unfolding better
better-geq none cat = (geq_int_refl cat.priority, λ b e. cc e, inr refl)
better-geq (some prev) cat = elim (Bool-cases (geq_int prev.priority cat.priority)) [
  | inl q ↦ rw q (q, λ b e. geq-same prev b e, inl refl)
  | inr q ↦ rw q (
    geq_int_refl cat.priority,
    λ b e.
        geq_int_trans cat.priority prev.priority b.priority
          (geq_int_total prev.priority cat.priority q) (geq-same prev b e),
    inr refl,
  )
]

Ends-hit :
    (failed : List String) (best : Option FailureCategory) (cat : FailureCategory)
    (rest : List FailureCategory) (r : Option FailureCategory)
    → is_hit failed cat ≡ true
    → Ends failed (some (better best cat)) rest r
    → Ends failed best (cat ∷ rest) r
Ends-hit failed best cat rest none hit (e, h) = cc e
Ends-hit failed best cat rest (some c) hit (found, above, h) =
    let (over_cat, over_best, which) = better-geq best cat in
    let over = above (better best cat) refl in
    (
      elim found [
        | inl e ↦
            let same = some_injective (better best cat) c e in
            elim which [
              | inl w ↦ inl (w ∙ e)
              | inr w ↦
                  inr (inl (sym w ∙ same), subst (λ z. is_hit failed z ≡ true) (sym w ∙ same) hit)
            ]
        | inr (there, hit_c) ↦ inr (inr there, hit_c)
      ],
      λ b e. geq_int_trans c.priority (better best cat).priority b.priority over (over_best b e),
      (λ _. geq_int_trans c.priority (better best cat).priority cat.priority over over_cat, h),
    )

best_hit-Ends :
    (failed : List String) (best : Option FailureCategory) (cats : List FailureCategory)
    → Ends failed best cats (best_hit failed best cats)
unfolding best_hit
best_hit-Ends failed none [] = (refl, tt)
best_hit-Ends failed (some c) [] = (inl refl, λ b e. geq-same c b e, tt)
best_hit-Ends failed best (cat ∷ rest) = elim (Bool-cases (is_hit failed cat)) [
  | inl q ↦
      rw q (Ends-hit failed best cat rest _ q (best_hit-Ends failed (some (better best cat)) rest))
  | inr q ↦ rw q (Ends-miss failed best cat rest _ q (best_hit-Ends failed best rest))
]

-- The category of failed checks: where some category's pattern matches one of them, a category whose
-- pattern does, and no other such category has a higher priority; where none does, the default.
pub categorize_lem :
    (failed : List String) (categories : List FailureCategory)
    → ((c : FailureCategory) × (categorize failed categories ≡ some c) × IsBest failed categories c)
      ⊎ (All (λ d. is_hit failed d ≡ false) categories
          × (categorize failed categories ≡ default_category categories))
unfolding categorize
categorize_lem failed categories =
    found (best_hit failed none categories) (best_hit-Ends failed none categories)
  where
    found :
        (r : Option FailureCategory)
        → Ends failed none categories r
        → ((c : FailureCategory) × (elim r as (λ _. Option FailureCategory) [
          | some c ↦ some c
          | none ↦ default_category categories
        ]
              ≡ some c)
            × IsBest failed categories c)
          ⊎ (All (λ d. is_hit failed d ≡ false) categories
              × (elim r as (λ _. Option FailureCategory) [
                | some c ↦ some c
                | none ↦ default_category categories
              ]
                  ≡ default_category categories))
    found none (e, h) = inr (h, refl)
    found (some c) (which, above, h) = elim which [
      | inl e ↦ cc e
      | inr (there, hit) ↦ inl (c, refl, (there, hit, h))
    ]
