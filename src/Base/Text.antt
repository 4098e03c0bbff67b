-- ===== src/Base/Text.antt =====
-- Rust's tests on texts.
use Prim.Native.Nat.{ℕ, zero, suc, ◌+◌, ◌-◌, ◌*◌, ◌/◌, ◌%◌}
use Prim.Native.Char.{Char, code}
use Prim.Native.String.{String, ◌++◌ as append_str}
use mathlib.Core.List.{List, [], ◌∷◌, ◌++◌}
use mathlib.Core.Bool.{Bool, true, false, ◌&&◌, ◌||◌}
use mathlib.Core.Option.{Option, none, some}
pub use text.Mathlib.Text.{◌==◌ as str_eq, starts_with}
pub use text.Mathlib.TextEquality.{eq_iff}
pub use text.Mathlib.TextPositions.{eq_refl}
use sinfonia.Base.Tests.{map_option, leb, ltb, ◌==◌, if◌then◌else◌}

abbrev pub is_empty_str : String → Bool
is_empty_str s = str_eq s ""

-- `filter(|s| !s.is_empty())`
abbrev pub non_empty : Option String → Option String
non_empty none = none
non_empty (some s) = if is_empty_str s then none else some s

-- `char::is_whitespace`: the code points with the property White_Space.
abbrev pub is_whitespace : ℕ → Bool
is_whitespace c =
    (leb 9 c && leb c 13)
    || c == 32
    || c == 133
    || c == 160
    || c == 5760
    || (leb 8192 c && leb c 8202)
    || c == 8232
    || c == 8233
    || c == 8239
    || c == 8287
    || c == 12288

-- `s.trim().is_empty()`
unfoldable pub is_blank : String → Bool
is_blank String.[] = true
is_blank (String.◌∷◌ c s) = is_whitespace (code c) && is_blank s

-- `str::trim_start`, `str::trim_end`, `str::trim`
unfoldable pub trim_start : String → String
trim_start String.[] = String.[]
trim_start (String.◌∷◌ c s) =
    let rest = trim_start s in if is_whitespace (code c) then rest else String.◌∷◌ c s

unfoldable pub trim_end : String → String
trim_end String.[] = String.[]
trim_end (String.◌∷◌ c s) =
    let rest = trim_end s in
    if is_whitespace (code c) && is_empty_str rest then String.[] else String.◌∷◌ c rest

abbrev pub trim : String → String
trim s = trim_end (trim_start s)

abbrev before_break : String → Bool
before_break String.[] = false
before_break (String.◌∷◌ c s) = code c == 10

abbrev cons_first : Char → List String → List String
cons_first c [] = String.◌∷◌ c String.[] ∷ []
cons_first c (line ∷ rest) = String.◌∷◌ c line ∷ rest

-- `str::lines`: broken at each `\n`, which takes a `\r` before it along; a text that ends with a break
-- has no empty line after it.
unfoldable pub lines : String → List String
lines String.[] = []
lines (String.◌∷◌ c s) =
    let rest = lines s in
    if code c == 10
    then "" ∷ rest
    else if code c == 13 && before_break s
    then rest
    else cons_first c rest

-- `str::parse` of an unsigned number with a greatest value, behind the sign
abbrev pub parse_digits : ℕ → ℕ → String → Option ℕ
parse_digits greatest acc String.[] = some acc
parse_digits greatest acc (String.◌∷◌ c rest) =
    let rest_of = parse_digits greatest (acc * 10 + (code c - 48)) rest in
    if leb 48 (code c) && leb (code c) 57 && leb (acc * 10 + (code c - 48)) greatest
    then rest_of
    else none

abbrev pub parse_nonempty : ℕ → String → Option ℕ
parse_nonempty greatest String.[] = none
parse_nonempty greatest (String.◌∷◌ c rest) = parse_digits greatest 0 (String.◌∷◌ c rest)

unfoldable pub parse_unsigned : ℕ → String → Option ℕ
parse_unsigned greatest String.[] = none
parse_unsigned greatest (String.◌∷◌ c rest) =
    if code c == 43
    then parse_nonempty greatest rest
    else parse_digits greatest 0 (String.◌∷◌ c rest)

-- `char::to_ascii_lowercase`, on code points
abbrev pub ascii_lower : ℕ → ℕ
ascii_lower c = if leb 65 c && leb c 90 then c + 32 else c

-- `str::eq_ignore_ascii_case`
pub eq_ignore_ascii_case : String → String → Bool
eq_ignore_ascii_case String.[] String.[] = true
eq_ignore_ascii_case String.[] (String.◌∷◌ d t) = false
eq_ignore_ascii_case (String.◌∷◌ c s) String.[] = false
eq_ignore_ascii_case (String.◌∷◌ c s) (String.◌∷◌ d t) =
    (ascii_lower (code c) == ascii_lower (code d)) && eq_ignore_ascii_case s t

-- `char::encode_utf8` and `str::as_bytes`
abbrev pub char_bytes : ℕ → List ℕ
char_bytes c =
    if ltb c 128
    then c ∷ []
    else if ltb c 2048
    then (192 + c / 64) ∷ (128 + c % 64) ∷ []
    else if ltb c 65536
    then (224 + c / 4096) ∷ (128 + c / 64 % 64) ∷ (128 + c % 64) ∷ []
    else (240 + c / 262144) ∷ (128 + c / 4096 % 64) ∷ (128 + c / 64 % 64) ∷ (128 + c % 64) ∷ []

unfoldable pub as_bytes : String → List ℕ
as_bytes String.[] = []
as_bytes (String.◌∷◌ c s) = char_bytes (code c) ++ as_bytes s

-- `format!`, whose pieces are given one by one
unfoldable pub concat : List String → String
concat [] = ""
concat (s ∷ rest) = append_str s (concat rest)

abbrev pub digit : ℕ → String
digit d =
    if d == 0
    then "0"
    else if d == 1
    then "1"
    else if d == 2
    then "2"
    else if d == 3
    then "3"
    else if d == 4
    then "4"
    else if d == 5
    then "5"
    else if d == 6
    then "6"
    else if d == 7
    then "7"
    else if d == 8
    then "8"
    else "9"

abbrev pub digits : ℕ → ℕ → String
digits zero n = ""
digits (suc fuel) n = elim (ltb n 10) [
  | true ↦ digit n
  | false ↦ append_str (digits fuel (n / 10)) (digit (n % 10))
]

-- `{n}` in a format: a number has at most as many digits as one more than itself.
unfoldable pub decimal : ℕ → String
decimal n = digits (suc n) n

abbrev pub same_char : Char → Char → Bool
same_char d c = str_eq (String.◌∷◌ d String.[]) (String.◌∷◌ c String.[])

-- `str::strip_prefix`, `str::strip_suffix`
unfoldable pub strip : String → String → Option String
strip String.[] s = some s
strip (String.◌∷◌ d p) String.[] = none
strip (String.◌∷◌ d p) (String.◌∷◌ c s) =
    let rest = strip p s in if same_char d c then rest else none

unfoldable pub strip_suffix : String → String → Option String
strip_suffix p String.[] = if is_empty_str p then some String.[] else none
strip_suffix p (String.◌∷◌ c s) =
    let rest = strip_suffix p s in
    if str_eq (String.◌∷◌ c s) p then some String.[] else map_option (String.◌∷◌ c) rest
