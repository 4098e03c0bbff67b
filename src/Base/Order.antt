-- ===== src/Base/Order.antt =====
-- Three-way comparisons, Rust's `Ord::cmp`: their laws, the instances that the program composes,
-- and the stable sort `sort_by`.
use Prim.Native.Nat.{ℕ, Ordering, compare as compare_nat}
use Prim.Native.String.compare as Clause
use Prim.Native.String.{String, compare as compare_str}
use mathlib.Core.Path.{◌≡◌, refl}
use mathlib.Core.Logic.{◌≢◌, ◌⊎◌, inl, inr}
use mathlib.Core.Bool.{true, false}
use mathlib.Core.List.{List, [], ◌∷◌, Perm}
use mathlib.Core.List.Perm
use mathlib.Core.Option.{Option, none, some}
use native.Mathlib.Omega.{arith}
use sinfonia.Base.Lists.{All, filter}
use sinfonia.Base.Words.{ℤ, pos, negsuc, compare_int}

-- `Ordering::reverse` and `Ordering::then`
abbrev pub reverse_order : Ordering → Ordering
reverse_order Ordering.lt = Ordering.gt
reverse_order Ordering.eq = Ordering.eq
reverse_order Ordering.gt = Ordering.lt

abbrev pub then_by : Ordering → Ordering → Ordering
then_by Ordering.lt b = Ordering.lt
then_by Ordering.eq b = b
then_by Ordering.gt b = Ordering.gt

-- The comparison of a total preorder.
pub record IsComparison {ℓ} {A : Type ℓ} (cmp : A → A → Ordering) : Type ℓ where
  pub flip : (a b : A) → cmp b a ≡ reverse_order (cmp a b)
  pub eq_left : (a b c : A) → cmp a b ≡ Ordering.eq → cmp a c ≡ cmp b c
  pub lt_trans : (a b c : A) → cmp a b ≡ Ordering.lt → cmp b c ≡ Ordering.lt → cmp a c ≡ Ordering.lt

pub compare_nat-IsComparison : IsComparison compare_nat
compare_nat-IsComparison = record {
  flip = λ a b. ground arith;
  eq_left = λ a b c h. ground arith;
  lt_trans = λ a b c h k. ground arith;
}

pub compare_int-IsComparison : IsComparison compare_int
compare_int-IsComparison = record { flip = flip; eq_left = eq_left; lt_trans = lt_trans }
  where
    flip : (a b : ℤ) → compare_int b a ≡ reverse_order (compare_int a b)
    flip (pos a) (pos b) = ground arith
    flip (pos a) (negsuc b) = refl
    flip (negsuc a) (pos b) = refl
    flip (negsuc a) (negsuc b) = ground arith

    eq_left : (a b c : ℤ) → compare_int a b ≡ Ordering.eq → compare_int a c ≡ compare_int b c
    eq_left a b c h = ground arith

    lt_trans :
        (a b c : ℤ)
        → compare_int a b ≡ Ordering.lt
        → compare_int b c ≡ Ordering.lt
        → compare_int a c ≡ Ordering.lt
    lt_trans a b c h k = ground arith

-- `None < Some(_)`
abbrev pub compare_option : Option ℕ → Option ℕ → Ordering
compare_option none none = Ordering.eq
compare_option none (some b) = Ordering.lt
compare_option (some a) none = Ordering.gt
compare_option (some a) (some b) = compare_nat a b

pub compare_option-IsComparison : IsComparison compare_option
compare_option-IsComparison = record {
  flip = λ a b. ground arith;
  eq_left = λ a b c h. ground arith;
  lt_trans = λ a b c h k. ground arith;
}

compare_str-flip : (s t : String) → compare_str t s ≡ reverse_order (compare_str s t)
compare_str-flip String.[] String.[] = ground (arith, Clause.nil-nil)
compare_str-flip String.[] (String.◌∷◌ d t) =
    ground (arith, Clause.nil-cons d t, Clause.cons-nil d t)
compare_str-flip (String.◌∷◌ c s) String.[] =
    ground (arith, Clause.nil-cons c s, Clause.cons-nil c s)
compare_str-flip (String.◌∷◌ c s) (String.◌∷◌ d t) =
    ground (arith, Clause.cons-cons c d s t, Clause.cons-cons d c t s, compare_str-flip s t)

compare_str-eq_left :
    (s t u : String) → compare_str s t ≡ Ordering.eq → compare_str s u ≡ compare_str t u
compare_str-eq_left String.[] String.[] u h = refl
compare_str-eq_left String.[] (String.◌∷◌ d t) u h = cc (Clause.nil-cons d t)
compare_str-eq_left (String.◌∷◌ c s) String.[] u h = cc (Clause.cons-nil c s)
compare_str-eq_left (String.◌∷◌ c s) (String.◌∷◌ d t) String.[] h =
    cc (Clause.cons-nil c s, Clause.cons-nil d t)
compare_str-eq_left (String.◌∷◌ c s) (String.◌∷◌ d t) (String.◌∷◌ e u) h = ground (
  arith,
  Clause.cons-cons c d s t,
  Clause.cons-cons c e s u,
  Clause.cons-cons d e t u,
  compare_str-eq_left s t u,
)

compare_str-lt_trans :
    (s t u : String)
    → compare_str s t ≡ Ordering.lt
    → compare_str t u ≡ Ordering.lt
    → compare_str s u ≡ Ordering.lt
compare_str-lt_trans String.[] String.[] u h k = cc
compare_str-lt_trans String.[] (String.◌∷◌ d t) String.[] h k = cc (Clause.cons-nil d t)
compare_str-lt_trans String.[] (String.◌∷◌ d t) (String.◌∷◌ e u) h k = Clause.nil-cons e u
compare_str-lt_trans (String.◌∷◌ c s) String.[] u h k = cc (Clause.cons-nil c s)
compare_str-lt_trans (String.◌∷◌ c s) (String.◌∷◌ d t) String.[] h k = cc (Clause.cons-nil d t)
compare_str-lt_trans (String.◌∷◌ c s) (String.◌∷◌ d t) (String.◌∷◌ e u) h k = ground (
  arith,
  Clause.cons-cons c d s t,
  Clause.cons-cons c e s u,
  Clause.cons-cons d e t u,
  compare_str-lt_trans s t u,
)

pub compare_str-IsComparison : IsComparison compare_str
compare_str-IsComparison = record {
  flip = compare_str-flip;
  eq_left = compare_str-eq_left;
  lt_trans = compare_str-lt_trans;
}

-- A comparison by a key, and a second comparison where the first says "equal".
pub comap-IsComparison {ℓ κ} :
    {A : Type ℓ} {B : Type κ} (key : A → B) {cmp : B → B → Ordering}
    → IsComparison cmp
    → IsComparison (λ a b. cmp (key a) (key b))
comap-IsComparison key c = record {
  flip = λ a b. c.flip (key a) (key b);
  eq_left = λ a b d. c.eq_left (key a) (key b) (key d);
  lt_trans = λ a b d. c.lt_trans (key a) (key b) (key d);
}

pub then_by-IsComparison {ℓ} :
    {A : Type ℓ} {f g : A → A → Ordering}
    → IsComparison f
    → IsComparison g
    → IsComparison (λ a b. then_by (f a b) (g a b))
then_by-IsComparison {A} {f} {g} p q = record {
  flip = λ a b. ground (arith, p.flip a b, q.flip a b);
  eq_left = λ a b c h. ground (arith, p.eq_left a b c, q.eq_left a b c);
  lt_trans = λ a b c h k. ground (
    arith,
    p.lt_trans a b c,
    q.lt_trans a b c,
    p.eq_left a b c,
    p.eq_left b c a,
    p.flip a b,
    p.flip a c,
    p.flip b c,
  );
}

pub gt_or_not : (o : Ordering) → (o ≡ Ordering.gt) ⊎ (o ≢ Ordering.gt)
gt_or_not Ordering.lt = inr (λ e. cc)
gt_or_not Ordering.eq = inr (λ e. cc)
gt_or_not Ordering.gt = inl refl

-- "not after" is transitive.
pub not-gt_trans {ℓ} :
    {A : Type ℓ} {cmp : A → A → Ordering} (c : IsComparison cmp) (a b d : A)
    → cmp a b ≢ Ordering.gt
    → cmp b d ≢ Ordering.gt
    → cmp a d ≢ Ordering.gt
not-gt_trans c a b d h k = ground (
  arith,
  h,
  k,
  c.flip a b,
  c.flip b d,
  c.flip a d,
  c.eq_left a b d,
  c.eq_left b d a,
  c.eq_left d b a,
  c.lt_trans a b d,
)

module _ {ℓ} {A : Type ℓ} (cmp : A → A → Ordering) where
  -- `sort_by` is stable: an element stays before those that it does not come after.
  unfoldable pub insert_sorted : A → List A → List A
  insert_sorted a [] = a ∷ []
  insert_sorted a (b ∷ rest) = elim (cmp a b) [
    | Ordering.gt ↦ b ∷ insert_sorted a rest
    | _ ↦ a ∷ b ∷ rest
  ]

  unfoldable pub sort_by : List A → List A
  unfolding insert_sorted
  sort_by [] = []
  sort_by (a ∷ rest) = insert_sorted a (sort_by rest)

  -- Nothing stands after an element that it has to come before.
  abbrev pub IsSorted : List A → Type 0
  IsSorted [] = Unit
  IsSorted (a ∷ rest) = All (λ b. cmp a b ≢ Ordering.gt) rest × IsSorted rest

  insert_sorted-first :
      (a b : A) (rest : List A) → cmp a b ≢ Ordering.gt → insert_sorted a (b ∷ rest) ≡ a ∷ b ∷ rest
  unfolding insert_sorted
  insert_sorted-first a b rest n = ground (arith, n)

  insert_sorted-perm : (a : A) (xs : List A) → Perm (insert_sorted a xs) (a ∷ xs)
  unfolding insert_sorted
  insert_sorted-perm a [] = Perm.refl (a ∷ [])
  insert_sorted-perm a (b ∷ rest) = elim (gt_or_not (cmp a b)) [
    | inl e ↦
        rw (e, insert_sorted)
          (Perm.trans (Perm.cons b (insert_sorted-perm a rest)) (Perm.swap a b rest))
    | inr n ↦ rw (insert_sorted-first a b rest n) (Perm.refl _)
  ]

  pub sort_by-perm : (xs : List A) → Perm (sort_by xs) xs
  unfolding sort_by
  sort_by-perm [] = Perm.refl []
  sort_by-perm (a ∷ rest) =
      Perm.trans (insert_sorted-perm a (sort_by rest)) (Perm.cons a (sort_by-perm rest))

  -- The elements that compare as equal to a key, in the order of the list.
  abbrev pub class_of : A → List A → List A
  class_of key = filter (λ b. elim (cmp key b) [ Ordering.eq ↦ true | _ ↦ false ])

  module _ (c : IsComparison cmp) where
    All-insert_sorted :
        (k a : A) (xs : List A)
        → cmp k a ≢ Ordering.gt
        → All (λ b. cmp k b ≢ Ordering.gt) xs
        → All (λ b. cmp k b ≢ Ordering.gt) (insert_sorted a xs)
    unfolding insert_sorted
    All-insert_sorted k a [] h hs = (h, tt)
    All-insert_sorted k a (b ∷ rest) h hs = elim (gt_or_not (cmp a b)) [
      | inl e ↦ rw (e, insert_sorted) (hs.0, All-insert_sorted k a rest h hs.1)
      | inr n ↦ rw (insert_sorted-first a b rest n) (h, hs)
    ]

    All-trans :
        (a b : A) (xs : List A)
        → cmp a b ≢ Ordering.gt
        → All (λ d. cmp b d ≢ Ordering.gt) xs
        → All (λ d. cmp a d ≢ Ordering.gt) xs
    All-trans a b [] h hs = tt
    All-trans a b (d ∷ xs) h hs = (not-gt_trans c a b d h hs.0, All-trans a b xs h hs.1)

    insert_sorted-IsSorted : (a : A) (xs : List A) → IsSorted xs → IsSorted (insert_sorted a xs)
    unfolding insert_sorted
    insert_sorted-IsSorted a [] h = (tt, tt)
    insert_sorted-IsSorted a (b ∷ rest) h = elim (gt_or_not (cmp a b)) [
      | inl e ↦
          rw (e, insert_sorted)
            (
              All-insert_sorted b a rest (ground (arith, c.flip a b, e)) h.0,
              insert_sorted-IsSorted a rest h.1,
            )
      | inr n ↦ rw (insert_sorted-first a b rest n) ((n, All-trans a b rest n h.0), h)
    ]

    pub sort_by-IsSorted : (xs : List A) → IsSorted (sort_by xs)
    unfolding sort_by
    sort_by-IsSorted [] = tt
    sort_by-IsSorted (a ∷ rest) = insert_sorted-IsSorted a (sort_by rest) (sort_by-IsSorted rest)

    class_of-insert_sorted :
        (key a : A) (xs : List A) → class_of key (insert_sorted a xs) ≡ class_of key (a ∷ xs)
    unfolding insert_sorted
    class_of-insert_sorted key a [] = refl
    class_of-insert_sorted key a (b ∷ rest) =
        ground (arith, class_of-insert_sorted key a rest, c.eq_left key a b, c.flip a b)

    pub class_of-sort_by : (key : A) (xs : List A) → class_of key (sort_by xs) ≡ class_of key xs
    unfolding sort_by
    class_of-sort_by key [] = refl
    class_of-sort_by key (a ∷ rest) =
        ground (arith, class_of-insert_sorted key a (sort_by rest), class_of-sort_by key rest)
