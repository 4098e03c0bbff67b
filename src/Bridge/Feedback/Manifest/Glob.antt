-- ===== src/Bridge/Feedback/Manifest/Glob.antt =====
-- `glob_match`: a pattern in which each `*` matches any run of characters.
use Prim.Native.Char.{code}
use sinfonia.Base.{
  ◌==◌, String, Bool, false, ◌||◌, Option, none, some, List, [], ◌∷◌, str_eq, is_empty_str, strip,
  if◌then◌else◌,
}

-- `pattern.split('*')`: the part before the first star, and the others
unfoldable pub split_star : String → String × List String
split_star String.[] = (String.[], [])
split_star (String.◌∷◌ c s) =
    let (first, rest) = split_star s in
    if code c == 42 then (String.[], first ∷ rest) else (String.◌∷◌ c first, rest)

abbrev pub first_or : Option String → Option String → Option String
first_or none later = later
first_or (some rest) later = some rest

-- What stands behind the first occurrence of a part, from `find`
unfoldable pub behind : String → String → Option String
behind p String.[] = strip p String.[]
behind p (String.◌∷◌ c s) = first_or (strip p (String.◌∷◌ c s)) (behind p s)

unfoldable pub ends_with : String → String → Bool
ends_with String.[] p = is_empty_str p
ends_with (String.◌∷◌ c s) p = str_eq (String.◌∷◌ c s) p || ends_with s p

-- The parts behind a star, the last as a suffix
unfoldable pub match_parts : String → List String → String → Bool
match_parts p [] rest = ends_with rest p
match_parts p (q ∷ more) rest = elim (behind p rest) [
  | none ↦ false
  | some found ↦ match_parts q more found
]

abbrev pub match_after : String → List String → Option String → Bool
match_after p more none = false
match_after p more (some rest) = match_parts p more rest

abbrev pub match_split : String → String → String → List String → Bool
match_split pattern name first [] = str_eq pattern name
match_split pattern name first (p ∷ more) = match_after p more (strip first name)

unfoldable pub glob_match : String → String → Bool
glob_match pattern name = match_split pattern name (split_star pattern).0 (split_star pattern).1
