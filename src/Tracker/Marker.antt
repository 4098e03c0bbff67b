-- ===== src/Tracker/Marker.antt =====
-- crates/sinfonia-tracker/src/custom_fields.rs and its use in linear.rs: the comment in which the bridge keeps
-- the custom fields of a Linear ticket. The text of JSON is a parameter (`to_string`, `from_str`), as is the
-- rounding of an integer to an `f64`.
mod Examples
pub mod ReadBack
use sinfonia.Base.{
  ℤ, String, Bool, Option, none, some, List, [], ◌∷◌, Map, lookup, insert, remove, map_option,
  and_then, unwrap_or, trim, trim_start, trim_end, strip, strip_suffix,
}
use sinfonia.Domain.{F64, nan, infinity, finite, CustomFieldValue, null, number, string}
use sinfonia.Json.{
  Json, null as json_null, boolean, integer, float, text, array, object, Items, no_items, item,
  Fields, no_fields, field, find_field, member_of,
}

abbrev pub marker : String
marker = "sinfonia_bridge_state_v1"

pub record MarkerEnvelope : Type 0 where
  pub fields : Map CustomFieldValue

-- The object is in the order of the list that stands for the map; it is only looked up in, and a key is in
-- it once where it is in the list once.
-- `Serialize`: the primitive alone; JSON has no number that is not finite.
abbrev pub number_json : F64 → Json
number_json nan = json_null
number_json (infinity negative) = json_null
number_json (finite negative mantissa exponent) = float (finite negative mantissa exponent)

abbrev pub value_json : CustomFieldValue → Json
value_json null = json_null
value_json (number x) = number_json x
value_json (string s) = text s

abbrev pub fields_json : Map CustomFieldValue → Fields
fields_json [] = no_fields
fields_json ((key, v) ∷ entries) = field key (value_json v) (fields_json entries)

abbrev pub marker_fields : MarkerEnvelope → Fields
marker_fields envelope =
    field marker (object (field "fields" (object (fields_json envelope.fields)) no_fields))
      no_fields

-- `Deserialize` of an untagged value: the first shape that fits
abbrev pub value_of : (ℤ → F64) → Json → Option CustomFieldValue
value_of f64_of json_null = some null
value_of f64_of (integer n) = some (number (f64_of n))
value_of f64_of (float x) = some (number x)
value_of f64_of (text s) = some (string s)
value_of f64_of _ = none

abbrev pub entry_of :
    String → Option CustomFieldValue → Option (Map CustomFieldValue) → Option (Map CustomFieldValue)
entry_of key none rest = none
entry_of key (some v) rest = map_option (λ entries. (key, v) ∷ entries) rest

abbrev pub entries_of : (ℤ → F64) → Fields → Option (Map CustomFieldValue)
entries_of f64_of no_fields = some []
entries_of f64_of (field key v rest) = entry_of key (value_of f64_of v) (entries_of f64_of rest)

abbrev pub map_of : (ℤ → F64) → Json → Option (Map CustomFieldValue)
map_of f64_of (object entries) = entries_of f64_of entries
map_of f64_of _ = none

-- `#[serde(default)]`
abbrev pub fields_or_default : (ℤ → F64) → Option Json → Option (Map CustomFieldValue)
fields_or_default f64_of none = some []
fields_or_default f64_of (some v) = map_of f64_of v

-- A struct is read from an object or from a sequence of its fields.
abbrev pub envelope_of : (ℤ → F64) → Json → Option MarkerEnvelope
envelope_of f64_of (object members) =
    map_option (λ m. record { fields = m }) (fields_or_default f64_of (find_field "fields" members))
envelope_of f64_of (array no_items) = some (record { fields = [] })
envelope_of f64_of (array (item v no_items)) =
    map_option (λ m. record { fields = m }) (map_of f64_of v)
envelope_of f64_of _ = none

abbrev pub opened_fence : Option String → Option String → String → String
opened_fence (some rest) plain s = trim_start rest
opened_fence none (some rest) s = trim_start rest
opened_fence none none s = s

abbrev pub closed_fence : Option String → String → String
closed_fence (some rest) s = trim_end rest
closed_fence none s = s

unfoldable pub strip_code_fence : String → String
strip_code_fence s =
    let out = opened_fence (strip "```json" s) (strip "```" s) s in
    closed_fence (strip_suffix "```" out) out

-- A comment of a ticket, as GraphQL has it
pub record Node : Type 0 where
  pub id : Option String
  pub body : Option String

-- The two mutations of `store_marker_comment`
pub data Mutation : Type 0 where
  comment_update comment_create : String → String → Mutation

abbrev pub stored_body : Mutation → String
stored_body (comment_update id body) = body
stored_body (comment_create issue_id body) = body

abbrev pub or_next :
    Option String
    → Option MarkerEnvelope
    → Option String × Option MarkerEnvelope
    → Option String × Option MarkerEnvelope
or_next id (some envelope) later = (id, some envelope)
or_next id none later = later

abbrev pub fields_in : Option MarkerEnvelope → Map CustomFieldValue
fields_in none = []
fields_in (some envelope) = envelope.fields

abbrev pub put : String → CustomFieldValue → Map CustomFieldValue → Map CustomFieldValue
put key null fields = remove key fields
put key value fields = insert key value fields

module _ (f64_of : ℤ → F64) (to_string : Json → String) (from_str : String → Option Json) where
  abbrev pub encode_marker : MarkerEnvelope → String
  encode_marker envelope = to_string (object (marker_fields envelope))

  abbrev pub decode_marker : String → Option MarkerEnvelope
  decode_marker body =
      and_then (from_str (strip_code_fence (trim body)))
        (λ outer. and_then (member_of outer marker) (envelope_of f64_of))

  -- The first node whose body decodes, among those that the query gives
  unfoldable pub load_marker_comment : List Node → Option String × Option MarkerEnvelope
  load_marker_comment [] = (none, none)
  load_marker_comment (n ∷ nodes) =
      or_next n.id (decode_marker (unwrap_or n.body "")) (load_marker_comment nodes)

  abbrev pub store_marker_comment : String → MarkerEnvelope → Option String → Mutation
  store_marker_comment issue_id envelope none = comment_create issue_id (encode_marker envelope)
  store_marker_comment issue_id envelope (some cid) = comment_update cid (encode_marker envelope)

  unfoldable pub read_custom_field : String → List Node → CustomFieldValue
  read_custom_field key nodes =
      unwrap_or (lookup key (fields_in (load_marker_comment nodes).1)) null

  -- The fields of the marker there is, with the one that is written
  abbrev pub updated : String → CustomFieldValue → List Node → MarkerEnvelope
  updated key value nodes = record {
    fields = put key value (fields_in (load_marker_comment nodes).1);
  }

  unfoldable pub write_custom_field : String → String → CustomFieldValue → List Node → Mutation
  write_custom_field issue_id key value nodes =
      store_marker_comment issue_id (updated key value nodes) (load_marker_comment nodes).0
