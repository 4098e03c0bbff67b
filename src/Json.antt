-- ===== src/Json.antt =====
-- The values of `serde_json`, and how the source reads them.
use sinfonia.Base.{
  ℕ, leb, String, Bool, Option, none, some, List, [], ◌∷◌, ℤ, pos, negsuc, str_eq, unwrap_or,
  if◌then◌else◌,
}
use sinfonia.Domain.{F64}

-- The fields of an object stand in the order in which `serde_json`'s map iterates: it is a `BTreeMap` here
-- (no `preserve_order`), so by key, each key once, whatever the order of the text.
-- A number is an integer (a `u64` or a negative `i64`), or a float.
mutual
  pub data Json : Type 0 where
    null : Json
    boolean : Bool → Json
    integer : ℤ → Json
    float : F64 → Json
    text : String → Json
    array : Items → Json
    object : Fields → Json

  pub data Items : Type 0 where
    no_items : Items
    item : Json → Items → Items

  pub data Fields : Type 0 where
    no_fields : Fields
    field : String → Json → Fields → Fields

abbrev pub find_field : String → Fields → Option Json
find_field key no_fields = none
find_field key (field k v rest) = if str_eq k key then some v else find_field key rest

-- `v.get(key)`
abbrev pub member_of : Json → String → Option Json
member_of (object fields) key = find_field key fields
member_of _ key = none

-- `.and_then(|v| v.get(key))`
abbrev pub get : Option Json → String → Option Json
get none key = none
get (some v) key = member_of v key

abbrev pub as_str : Option Json → Option String
as_str (some (text s)) = some s
as_str _ = none

abbrev pub as_u64 : Option Json → Option ℕ
as_u64 (some (integer (pos n))) = some n
as_u64 _ = none

-- `as_i64`: none for a number above `i64::MAX`
abbrev pub as_i64 : Option Json → Option ℤ
as_i64 (some (integer (pos n))) = if leb n 9223372036854775807 then some (pos n) else none
as_i64 (some (integer (negsuc n))) = some (negsuc n)
as_i64 _ = none

-- `as_f64`, given the rounding of an integer to an `f64`
abbrev pub as_f64 : (ℤ → F64) → Option Json → Option F64
as_f64 f64_of (some (integer n)) = some (f64_of n)
as_f64 f64_of (some (float x)) = some x
as_f64 f64_of _ = none

abbrev pub as_bool : Option Json → Option Bool
as_bool (some (boolean b)) = some b
as_bool _ = none

abbrev pub as_array : Option Json → Option Items
as_array (some (array items)) = some items
as_array _ = none

abbrev pub as_object : Option Json → Option Fields
as_object (some (object fields)) = some fields
as_object _ = none

-- `filter_map(|v| v.as_str())`
abbrev pub add_text : Option String → List String → List String
add_text none rest = rest
add_text (some s) rest = s ∷ rest

abbrev pub texts_of : Items → List String
texts_of no_items = []
texts_of (item v rest) = add_text (as_str (some v)) (texts_of rest)

abbrev pub text_at : Option Json → String → Option String
text_at v key = as_str (get v key)

abbrev pub text_or : Option Json → String → String → String
text_or v key default = unwrap_or (text_at v key) default
