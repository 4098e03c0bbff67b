-- ===== src/Tracker/Marker/Examples.antt =====
-- crates/sinfonia-tracker/src/custom_fields.rs at a ticket on which a human has commented.
use sinfonia.Base.{
  ◌≡◌, refl, ℤ, pos, String, Option, none, some, [], ◌∷◌, ◌++◌, false, str_eq, strip, strip_suffix,
  trim_start, trim_end, insert, if◌then◌else◌,
}
use sinfonia.Domain.{F64, nan, finite, CustomFieldValue, number}
use sinfonia.Json.{Json, object}
use sinfonia.Tracker.Marker.{
  comment_update, comment_create, Node, marker_fields, stored_body, strip_code_fence,
  load_marker_comment, read_custom_field, write_custom_field,
}
use sinfonia.Tracker.Marker.ReadBack.{braced, read_custom_field-update, read_custom_field-create}

abbrev f64_of : ℤ → F64
f64_of n = nan

abbrev two : CustomFieldValue
two = number (finite false 2 (pos 0))

abbrev inner : String
inner = "\"sinfonia_bridge_state_v1\":{\"fields\":{\"attempts\":2.0}}"

abbrev to_string : Json → String
to_string v = braced inner

abbrev from_str : String → Option Json
from_str s =
    if str_eq s (braced inner)
    then some (object (marker_fields (record { fields = ("attempts", two) ∷ [] })))
    else none

abbrev human : Node
human = record { id = some "c1"; body = some "please look" }

-- A marker that an earlier write left
abbrev marked : Node
marked = record { id = some "c2"; body = some "marker" }

abbrev earlier : String → Option Json
earlier s =
    if str_eq s "marker" then some (object (marker_fields (record { fields = [] }))) else from_str s

read_custom_field-update_example :
    let m =
      write_custom_field f64_of to_string earlier "i1" "attempts" two
        ((human ∷ []) ++ marked ∷ []) in
    (m ≡ comment_update "c2" (stored_body m))
    × (read_custom_field f64_of to_string earlier "attempts"
          ((human ∷ []) ++ record { id = some "c2"; body = some (stored_body m) } ∷ [])
        ≡ two)
unfolding load_marker_comment strip_code_fence strip strip_suffix trim_start trim_end insert
read_custom_field-update_example =
    read_custom_field-update f64_of to_string earlier "i1" "attempts" two (human ∷ []) [] marked
      "c2" (record { fields = [] }) "attempts" inner refl refl refl refl refl

read_custom_field-create_example :
    let m = write_custom_field f64_of to_string from_str "i1" "attempts" two ((human ∷ []) ++ []) in
    (m ≡ comment_create "i1" (stored_body m))
    × (read_custom_field f64_of to_string from_str "attempts"
          ((human ∷ []) ++ record { id = some "c2"; body = some (stored_body m) } ∷ [])
        ≡ two)
unfolding load_marker_comment strip_code_fence strip strip_suffix trim_start trim_end insert
read_custom_field-create_example =
    read_custom_field-create f64_of to_string from_str "i1" "attempts" two (human ∷ []) []
      (some "c2") "attempts" inner refl refl refl
