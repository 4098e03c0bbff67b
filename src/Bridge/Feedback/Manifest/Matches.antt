-- ===== src/Bridge/Feedback/Manifest/Matches.antt =====
-- The greedy match against what a pattern means.
use Prim.Native.Char.{Char}
use Prim.Native.String.{◌++◌ as append_str}
use text.Mathlib.TextLemmas.{
  append_assoc, append-nil, append_cancel_left, nil-append, cons-append, nil≢cons,
  head-eq_of_cons-eq, tail-eq_of_cons-eq,
}
use sinfonia.Base.{
  same_char, strip, ◌≡◌, ◌↔◌, inl, inr, ◌∙◌, refl, sym, ap, subst, String, Bool, true, false, ◌||◌,
  Option, none, some, List, [], ◌∷◌, str_eq, eq_iff, is_empty_str, arith, Bool-cases,
}
use sinfonia.Bridge.Feedback.Manifest.Glob.{
  split_star, first_or, behind, ends_with, match_parts, match_after, match_split, glob_match,
}

-- What the parts behind a star stand for: each behind any text, the last at the end
abbrev pub Parts : String → List String → String → Type 0
Parts p [] s = (x : String) × (s ≡ append_str x p)
Parts p (q ∷ more) s =
    (x : String) × (rest : String) × (s ≡ append_str x (append_str p rest)) × Parts q more rest

-- What a pattern stands for: itself, or its first part with the others behind it
abbrev pub Stands : String → String → String × List String → Type 0
Stands pattern name (first, []) = pattern ≡ name
Stands pattern name (first, p ∷ more) =
    (rest : String) × (name ≡ append_str first rest) × Parts p more rest

-- A text in front of a match is taken by its star.
Parts-behind :
    (p : String) (more : List String) (y s : String)
    → Parts p more s
    → Parts p more (append_str y s)
Parts-behind p [] y s (x, e) = (append_str y x, ap (append_str y) e ∙ sym (append_assoc y x p))
Parts-behind p (q ∷ more) y s (x, rest, e, m) =
    (append_str y x, rest, ap (append_str y) e ∙ sym (append_assoc y x (append_str p rest)), m)

same_char_iff : (d c : Char) → (same_char d c ≡ true) ↔ (d ≡ c)
same_char_iff d c =
    let e = eq_iff (String.◌∷◌ d String.[]) (String.◌∷◌ c String.[]) in
    (λ h. head-eq_of_cons-eq (e.0 h), λ h. e.1 (ap (λ k. String.◌∷◌ k String.[]) h))

strip_iff : (p s rest : String) → (strip p s ≡ some rest) ↔ (s ≡ append_str p rest)
unfolding strip
strip_iff String.[] s rest = (λ h. cc h ∙ sym (nil-append rest), λ h. ap some (h ∙ nil-append rest))
strip_iff (String.◌∷◌ d p) String.[] rest =
    (λ h. cc h, λ h. absurd (nil≢cons (h ∙ cons-append d p rest)))
strip_iff (String.◌∷◌ d p) (String.◌∷◌ c s) rest =
    let ih = strip_iff p s rest in
    (
      λ h. elim (Bool-cases (same_char d c)) [
        | inl e ↦
            let tail : s ≡ append_str p rest = ih.0 (rw (e) at h) in
            let head : d ≡ c = (same_char_iff d c).0 e in
            cc (tail, head) ∙ sym (cons-append d p rest)
        | inr e ↦ cc (rw (e) at h)
      ],
      λ h.
          let whole : Path String (String.◌∷◌ c s) (String.◌∷◌ d (append_str p rest)) =
            h ∙ cons-append d p rest in
          rw ((same_char_iff d c).1 (sym (head-eq_of_cons-eq whole)))
            (ih.1 (tail-eq_of_cons-eq whole)),
    )

-- What stands behind the first occurrence
abbrev Found : String → String → String → Type 0
Found p s rest = (x : String) × (s ≡ append_str x (append_str p rest))

behind-Found : (p s rest : String) → behind p s ≡ some rest → Found p s rest
unfolding behind
behind-Found p String.[] rest h =
    (String.[], (strip_iff p String.[] rest).0 h ∙ sym (nil-append (append_str p rest)))
behind-Found p (String.◌∷◌ c s) rest h =
    chosen (strip p (String.◌∷◌ c s)) refl h (λ k. behind-Found p s rest k)
  where
    chosen :
        (o : Option String)
        → strip p (String.◌∷◌ c s) ≡ o
        → first_or o (behind p s) ≡ some rest
        → (behind p s ≡ some rest → Found p s rest)
        → Found p (String.◌∷◌ c s) rest
    chosen (some found) e k ih =
        let same : found ≡ rest = cc k in
        (
          String.[],
          (strip_iff p (String.◌∷◌ c s) rest).0 (e ∙ ap some same)
              ∙ sym (nil-append (append_str p rest)),
        )
    chosen none e k ih =
        let later = ih k in
        (
          String.◌∷◌ c later.0,
          ap (String.◌∷◌ c) later.1 ∙ sym (cons-append c later.0 (append_str p rest)),
        )

-- Of two ends of a text, one behind `p` and one behind more, the one is the end of the other.
end_lem :
    (p z found rest : String)
    → append_str p found ≡ append_str (append_str z p) rest
    → (y : String) × (found ≡ append_str y rest)
end_lem String.[] z found rest h =
    (z, sym (nil-append found) ∙ h ∙ ap (λ a. append_str a rest) (append-nil z))
end_lem (String.◌∷◌ q p) String.[] found rest h = (
  String.[],
  append_cancel_left (String.◌∷◌ q p) found rest
        (h ∙ ap (λ a. append_str a rest) (nil-append (String.◌∷◌ q p)))
      ∙ sym (nil-append rest),
)
end_lem (String.◌∷◌ q p) (String.◌∷◌ w z) found rest h =
    end_lem p (append_str z (String.◌∷◌ q String.[])) found rest (
      tail-eq_of_cons-eq (
        sym (cons-append q p found)
        ∙ h
        ∙ ap (λ a. append_str a rest) (cons-append w z (String.◌∷◌ q p))
        ∙ cons-append w (append_str z (String.◌∷◌ q p)) rest)
      ∙ ap (λ a. append_str a rest)
          (ap (append_str z) (sym (cons-append q String.[] p ∙ ap (String.◌∷◌ q) (nil-append p)))
            ∙ sym (append_assoc z (String.◌∷◌ q String.[]) p)))

-- The first occurrence leaves the most: what stands behind any other is the end of it.
abbrev Leftmost : Option String → String → Type 0
Leftmost found rest =
    (first : String) × (found ≡ some first) × (y : String) × (first ≡ append_str y rest)

behind-Leftmost :
    (p s x rest : String) → s ≡ append_str x (append_str p rest) → Leftmost (behind p s) rest
unfolding behind
behind-Leftmost p String.[] String.[] rest h = (
  rest,
  (strip_iff p String.[] rest).1 (h ∙ nil-append (append_str p rest)),
  String.[],
  sym (nil-append rest),
)
behind-Leftmost p String.[] (String.◌∷◌ c x) rest h =
    absurd (nil≢cons (h ∙ cons-append c x (append_str p rest)))
behind-Leftmost p (String.◌∷◌ c s) String.[] rest h = (
  rest,
  ap (λ o. first_or o (behind p s))
      ((strip_iff p (String.◌∷◌ c s) rest).1 (h ∙ nil-append (append_str p rest))),
  String.[],
  sym (nil-append rest),
)
behind-Leftmost p (String.◌∷◌ c s) (String.◌∷◌ d x) rest h =
    chosen
      (behind-Leftmost p s x rest (tail-eq_of_cons-eq (h ∙ cons-append d x (append_str p rest))))
      (strip p (String.◌∷◌ c s)) refl
  where
    chosen :
        Leftmost (behind p s) rest
        → (o : Option String) → strip p (String.◌∷◌ c s) ≡ o
        → Leftmost (first_or o (behind p s)) rest
    chosen later none e = later
    chosen later (some found) e =
        let (y, ends) = end_lem p (String.◌∷◌ d x) found rest (
          sym ((strip_iff p (String.◌∷◌ c s) found).0 e)
          ∙ h
          ∙ sym (append_assoc (String.◌∷◌ d x) p rest)) in
        (found, refl, y, ends)

ends_with_iff : (s p : String) → (ends_with s p ≡ true) ↔ ((x : String) × (s ≡ append_str x p))
unfolding ends_with
ends_with_iff String.[] p =
    (λ h. (String.[], sym ((eq_iff p "").0 h) ∙ sym (nil-append p)), λ h. empty_of h.0 h.1)
  where
    empty_of : (x : String) → String.[] ≡ append_str x p → is_empty_str p ≡ true
    empty_of String.[] e = (eq_iff p "").1 (sym (e ∙ nil-append p))
    empty_of (String.◌∷◌ c x) e = absurd (nil≢cons (e ∙ cons-append c x p))
ends_with_iff (String.◌∷◌ c s) p = (
  λ h. elim (Bool-cases (str_eq (String.◌∷◌ c s) p)) [
    | inl e ↦ (String.[], (eq_iff (String.◌∷◌ c s) p).0 e ∙ sym (nil-append p))
    | inr e ↦
        let later = (ends_with_iff s p).0 (rw (e) at h) in
        (String.◌∷◌ c later.0, ap (String.◌∷◌ c) later.1 ∙ sym (cons-append c later.0 p))
  ],
  λ h. at_end h.0 h.1 (λ x e. (ends_with_iff s p).1 (x, e)),
)
  where
    at_end :
        (x : String)
        → String.◌∷◌ c s ≡ append_str x p
        → ((y : String) → s ≡ append_str y p → ends_with s p ≡ true)
        → (str_eq (String.◌∷◌ c s) p || ends_with s p) ≡ true
    at_end String.[] e ih = rw ((eq_iff (String.◌∷◌ c s) p).1 (e ∙ nil-append p)) refl
    at_end (String.◌∷◌ d x) e ih =
        let there = ih x (tail-eq_of_cons-eq (e ∙ cons-append d x p)) in ground (arith, there)

match_parts_iff :
    (p : String) (more : List String) (s : String) → (match_parts p more s ≡ true) ↔ Parts p more s
unfolding match_parts
match_parts_iff p [] s = ends_with_iff s p
match_parts_iff p (q ∷ more) s = (
  λ h. forth (behind p s) refl h (λ found. (match_parts_iff q more found).0),
  λ m.
      let (first, found, y, ends) = behind-Leftmost p s m.0 m.1 m.2 in
      back first found (
        (match_parts_iff q more first).1
          (subst (Parts q more) (sym ends) (Parts-behind q more y m.1 m.3))),
)
  where
    next : Option String → Bool
    next o = elim o [ none ↦ false | some found ↦ match_parts q more found ]

    forth :
        (o : Option String)
        → behind p s ≡ o
        → next o ≡ true
        → ((found : String) → match_parts q more found ≡ true → Parts q more found)
        → Parts p (q ∷ more) s
    forth none e h ih = absurd (cc h)
    forth (some found) e h ih =
        let (x, whole) = behind-Found p s found e in (x, found, whole, ih found h)

    back :
        (first : String)
        → behind p s ≡ some first
        → match_parts q more first ≡ true
        → next (behind p s) ≡ true
    back first e h = subst (λ o. next o ≡ true) (sym e) h

match_after_iff :
    (p first : String) (more : List String) (name : String)
    → (match_after p more (strip first name) ≡ true)
      ↔ ((rest : String) × (name ≡ append_str first rest) × Parts p more rest)
match_after_iff p first more name = (λ h. forth (strip first name) refl h, λ m. back m.0 m.1 m.2)
  where
    forth :
        (o : Option String)
        → strip first name ≡ o
        → match_after p more o ≡ true
        → (rest : String) × (name ≡ append_str first rest) × Parts p more rest
    forth none e h = absurd (cc h)
    forth (some rest) e h =
        (rest, (strip_iff first name rest).0 e, (match_parts_iff p more rest).0 h)

    back :
        (rest : String)
        → name ≡ append_str first rest
        → Parts p more rest
        → match_after p more (strip first name) ≡ true
    back rest e m =
        subst (λ o. match_after p more o ≡ true) (sym ((strip_iff first name rest).1 e))
          ((match_parts_iff p more rest).1 m)

match_split_iff :
    (pattern name first : String) (rest : List String)
    → (match_split pattern name first rest ≡ true) ↔ Stands pattern name (first, rest)
match_split_iff pattern name first [] = eq_iff pattern name
match_split_iff pattern name first (p ∷ more) = match_after_iff p first more name

-- The greedy match says yes exactly to the names that the pattern stands for: the pattern itself where
-- it has no star, and else its parts in order, the first in front and the last at the end, with any
-- text between them.
pub glob_match_iff :
    (pattern name : String)
    → (glob_match pattern name ≡ true) ↔ Stands pattern name (split_star pattern)
unfolding glob_match
glob_match_iff pattern name =
    match_split_iff pattern name (split_star pattern).0 (split_star pattern).1
