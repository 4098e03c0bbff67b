-- ===== src/Tracker/Marker/ReadBack.antt =====
-- What is written to the marker comment is read from it.
use Prim.Native.Nat.{ℕ}
use Prim.Native.Char.{code}
use sinfonia.Base.{
  ◌≡◌, ◌≢◌, refl, sym, ap, ◌∙◌, Bool-cases, inl, inr, arith, ℤ, String, false, Option, none, some,
  List, [], ◌∷◌, ◌++◌, Map, lookup, map_option, unwrap_or, trim, trim_start, trim_end, strip,
  strip_suffix, str_eq, eq_iff, if◌then◌else◌, lookup-insert, lookup-remove,
}
use sinfonia.Domain.{F64, nan, infinity, finite, CustomFieldValue, null, number, string}
use sinfonia.Json.{Json, object}
use sinfonia.Tracker.Marker.{
  comment_update, comment_create, MarkerEnvelope, value_json, fields_json, marker_fields, value_of,
  entries_of, strip_code_fence, Node, stored_body, encode_marker, decode_marker, or_next,
  load_marker_comment, store_marker_comment, fields_in, read_custom_field, put, updated,
  write_custom_field,
}

-- A text in braces
abbrev pub close : String → String
close String.[] = "}"
close (String.◌∷◌ c s) = String.◌∷◌ c (close s)

abbrev pub braced : String → String
braced s = String.◌∷◌ "{" (close s)

abbrev last_code : ℕ → String → ℕ
last_code d String.[] = d
last_code d (String.◌∷◌ c s) = last_code (code c) s

last_code-close : (d : ℕ) (s : String) → last_code d (close s) ≡ 125
last_code-close d String.[] = refl
last_code-close d (String.◌∷◌ c s) = last_code-close (code c) s

-- A text that ends in a brace is not one that ends otherwise.
differs : (s t : String) → last_code 0 s ≡ 125 → last_code 0 t ≢ 125 → str_eq s t ≡ false
differs s t h n = elim (Bool-cases (str_eq s t)) [
  | inl e ↦ absurd (n (sym (ap (last_code 0) ((eq_iff s t).0 e)) ∙ h))
  | inr e ↦ e
]

trim_end-close : (s : String) → trim_end (close s) ≡ close s
unfolding trim_end
trim_end-close String.[] = refl
trim_end-close (String.◌∷◌ c s) =
    rw (trim_end-close s, differs (close s) "" (last_code-close 0 s) (omega arith)) (ground arith)

strip_suffix-close : (s : String) → strip_suffix "```" (close s) ≡ none
unfolding strip_suffix
strip_suffix-close String.[] = refl
strip_suffix-close (String.◌∷◌ c s) = rw (
  differs (String.◌∷◌ c (close s)) "```" (last_code-close 0 (String.◌∷◌ c s)) (omega arith),
  strip_suffix-close s,
)

stripped : (s : String) → strip_code_fence (trim (braced s)) ≡ braced s
unfolding strip_code_fence trim_start strip
stripped s = rw (trim_end-close (String.◌∷◌ "{" s), strip_suffix-close (String.◌∷◌ "{" s))

-- A number that JSON has not is read as null.
abbrev pub settled : CustomFieldValue → CustomFieldValue
settled null = null
settled (number nan) = null
settled (number (infinity negative)) = null
settled (number (finite negative mantissa exponent)) = number (finite negative mantissa exponent)
settled (string s) = string s

abbrev pub settle : Map CustomFieldValue → Map CustomFieldValue
settle [] = []
settle ((key, v) ∷ entries) = (key, settled v) ∷ settle entries

value_of-value_json :
    (f64_of : ℤ → F64) (v : CustomFieldValue) → value_of f64_of (value_json v) ≡ some (settled v)
value_of-value_json f64_of null = refl
value_of-value_json f64_of (number nan) = refl
value_of-value_json f64_of (number (infinity negative)) = refl
value_of-value_json f64_of (number (finite negative mantissa exponent)) = refl
value_of-value_json f64_of (string s) = refl

entries_of-fields_json :
    (f64_of : ℤ → F64) (m : Map CustomFieldValue)
    → entries_of f64_of (fields_json m) ≡ some (settle m)
entries_of-fields_json f64_of [] = refl
entries_of-fields_json f64_of ((key, v) ∷ m) =
    rw (value_of-value_json f64_of v, entries_of-fields_json f64_of m)

lookup-settle :
    (key : String) (m : Map CustomFieldValue)
    → lookup key (settle m) ≡ map_option settled (lookup key m)
unfolding lookup
lookup-settle key [] = refl
lookup-settle key ((k, v) ∷ m) = ground (arith, lookup-settle key m)

lookup-put :
    (j key : String) (value : CustomFieldValue) (m : Map CustomFieldValue)
    → unwrap_or (lookup j (put key value m)) null
      ≡ (if str_eq key j then value else unwrap_or (lookup j m) null)
lookup-put j key null m = rw (lookup-remove key j m) (ground arith)
lookup-put j key (number x) m = rw (lookup-insert key j (number x) m) (ground arith)
lookup-put j key (string s) m = rw (lookup-insert key j (string s) m) (ground arith)

unwrap-settled :
    (o : Option CustomFieldValue)
    → unwrap_or (map_option settled o) null ≡ settled (unwrap_or o null)
unwrap-settled none = refl
unwrap-settled (some v) = refl

or_next-behind :
    (id x : Option String) (o : Option MarkerEnvelope)
    (r later : Option String × Option MarkerEnvelope) (envelope : MarkerEnvelope)
    → (or_next id o r).1 ≡ none
    → (r.1 ≡ none → later ≡ (x, some envelope))
    → or_next id o later ≡ (x, some envelope)
or_next-behind id x none r later envelope h k = k h
or_next-behind id x (some found) r later envelope h k = absurd (cc h)

module _ (f64_of : ℤ → F64) (to_string : Json → String) (from_str : String → Option Json) where
  decode_marker-encode_marker :
      (envelope : MarkerEnvelope) (inner : String)
      → to_string (object (marker_fields envelope)) ≡ braced inner
      → from_str (braced inner) ≡ some (object (marker_fields envelope))
      → decode_marker f64_of to_string from_str (encode_marker f64_of to_string from_str envelope)
        ≡ some (record { fields = settle envelope.fields })
  decode_marker-encode_marker envelope inner printed parsed =
      rw (printed, stripped inner, parsed) (rw (entries_of-fields_json f64_of envelope.fields))

  stored_body-store :
      (issue_id : String) (envelope : MarkerEnvelope) (cid : Option String)
      → stored_body (store_marker_comment f64_of to_string from_str issue_id envelope cid)
        ≡ encode_marker f64_of to_string from_str envelope
  stored_body-store issue_id envelope none = refl
  stored_body-store issue_id envelope (some cid) = refl

  -- The nodes before the marker do not matter.
  load_marker_comment-behind :
      (before : List Node) (n : Node) (after : List Node) (envelope : MarkerEnvelope)
      → (load_marker_comment f64_of to_string from_str before).1 ≡ none
      → decode_marker f64_of to_string from_str (unwrap_or n.body "") ≡ some envelope
      → load_marker_comment f64_of to_string from_str (before ++ n ∷ after) ≡ (n.id, some envelope)
  unfolding load_marker_comment
  load_marker_comment-behind [] n after envelope h d = rw d
  load_marker_comment-behind (b ∷ before) n after envelope h d =
      or_next-behind b.id n.id (decode_marker f64_of to_string from_str (unwrap_or b.body ""))
        (load_marker_comment f64_of to_string from_str before)
        (load_marker_comment f64_of to_string from_str (before ++ n ∷ after)) envelope h
        (λ k. load_marker_comment-behind before n after envelope k d)

  -- The comment that is written, read as the first marker
  read_custom_field-stored :
      (issue_id key : String) (value : CustomFieldValue) (nodes before after : List Node)
      (id : Option String) (j inner : String)
      (printed : to_string
          (object (marker_fields (updated f64_of to_string from_str key value nodes)))
        ≡ braced inner)
      (parsed : from_str (braced inner)
        ≡ some (object (marker_fields (updated f64_of to_string from_str key value nodes))))
      (first : (load_marker_comment f64_of to_string from_str before).1 ≡ none)
      → read_custom_field f64_of to_string from_str j (
          before
          ++ record {
            id = id;
            body = some (
                stored_body
                  (write_custom_field f64_of to_string from_str issue_id key value nodes));
          }
            ∷ after)
        ≡ settled
            (if str_eq key j then value else read_custom_field f64_of to_string from_str j nodes)
  unfolding read_custom_field write_custom_field
  read_custom_field-stored issue_id key value nodes before after id j inner printed parsed first =
      let old = load_marker_comment f64_of to_string from_str nodes in
      let fields = put key value (fields_in old.1) in
      let envelope : MarkerEnvelope = record { fields = fields } in
      let body =
        stored_body (store_marker_comment f64_of to_string from_str issue_id envelope old.0) in
      let decoded : decode_marker f64_of to_string from_str body
          ≡ some (record { fields = settle fields }) =
        ap (decode_marker f64_of to_string from_str) (stored_body-store issue_id envelope old.0)
        ∙ decode_marker-encode_marker envelope inner printed parsed in
      rw
        (load_marker_comment-behind before (record { id = id; body = some body }) after
          (record { fields = settle fields }) first decoded)
        (ap (λ o. unwrap_or o null) (lookup-settle j fields)
          ∙ unwrap-settled (lookup j fields)
          ∙ ap settled (lookup-put j key value (fields_in old.1)))

  store-update :
      (issue_id cid : String) (envelope : MarkerEnvelope) (id : Option String)
      → id ≡ some cid
      → let m = store_marker_comment f64_of to_string from_str issue_id envelope id in
        m ≡ comment_update cid (stored_body m)
  store-update issue_id cid envelope none e = absurd (cc e)
  store-update issue_id cid envelope (some c) e =
      ap (λ x. comment_update x (to_string (object (marker_fields envelope)))) (cc e)

  or_next-none :
      (id : Option String) (o : Option MarkerEnvelope) (r : Option String × Option MarkerEnvelope)
      → (or_next id o r).1 ≡ none
      → (o ≡ none) × (r.1 ≡ none)
  or_next-none id none r h = (refl, h)
  or_next-none id (some found) r h = absurd (cc h)

  -- Where no comment is a marker, none has an id to update, and none of the first ones is.
  load_marker_comment-none :
      (xs ys : List Node)
      → (load_marker_comment f64_of to_string from_str (xs ++ ys)).1 ≡ none
      → (load_marker_comment f64_of to_string from_str xs).1 ≡ none
  unfolding load_marker_comment
  load_marker_comment-none [] ys h = refl
  load_marker_comment-none (n ∷ xs) ys h =
      let both =
        or_next-none n.id (decode_marker f64_of to_string from_str (unwrap_or n.body ""))
          (load_marker_comment f64_of to_string from_str (xs ++ ys)) h in
      rw (both.0) (load_marker_comment-none xs ys both.1)

  load_marker_comment-no_id :
      (xs : List Node)
      → (load_marker_comment f64_of to_string from_str xs).1 ≡ none
      → (load_marker_comment f64_of to_string from_str xs).0 ≡ none
  unfolding load_marker_comment
  load_marker_comment-no_id [] h = refl
  load_marker_comment-no_id (n ∷ xs) h =
      let both =
        or_next-none n.id (decode_marker f64_of to_string from_str (unwrap_or n.body ""))
          (load_marker_comment f64_of to_string from_str xs) h in
      rw (both.0) (load_marker_comment-no_id xs both.1)

  -- Where a ticket has a marker, a write asks for the update of the first one's comment, by its id. With
  -- the new body in its place the field that was written has the value, and the other fields keep
  -- theirs: a number that JSON has not is null, and a null removes. It takes that the comment has an
  -- id, and that serde_json prints the object in braces and reads back what it printed.
  pub read_custom_field-update :
      (issue_id key : String) (value : CustomFieldValue) (before after : List Node) (n : Node)
      (cid : String) (old : MarkerEnvelope) (j inner : String)
      (first : (load_marker_comment f64_of to_string from_str before).1 ≡ none)
      (decoded : decode_marker f64_of to_string from_str (unwrap_or n.body "") ≡ some old)
      (named : n.id ≡ some cid)
      (printed : to_string (
          object
            (marker_fields (updated f64_of to_string from_str key value (before ++ n ∷ after))))
        ≡ braced inner)
      (parsed : from_str (braced inner)
        ≡ some (
            object
              (marker_fields (updated f64_of to_string from_str key value (before ++ n ∷ after)))))
      → let m =
          write_custom_field f64_of to_string from_str issue_id key value (before ++ n ∷ after) in
        (m ≡ comment_update cid (stored_body m))
        × (read_custom_field f64_of to_string from_str j
              (before ++ record { id = some cid; body = some (stored_body m) } ∷ after)
            ≡ settled (
                if str_eq key j
                then value
                else read_custom_field f64_of to_string from_str j (before ++ n ∷ after)))
  unfolding write_custom_field
  read_custom_field-update issue_id key value before after n cid old j inner first decoded named
        printed parsed =
      let loaded = load_marker_comment-behind before n after old first decoded in
      (
        store-update issue_id cid _ _
            (ap (λ (r : Option String × Option MarkerEnvelope). r.0) loaded ∙ named),
        read_custom_field-stored issue_id key value (before ++ n ∷ after) before after (some cid) j
            inner printed parsed first,
      )

  -- Where a ticket has no marker, a write asks for a new comment. Wherever it then stands among the
  -- others, the field that was written has the value, and the other fields have none.
  pub read_custom_field-create :
      (issue_id key : String) (value : CustomFieldValue) (before after : List Node)
      (id : Option String) (j inner : String)
      (unmarked : (load_marker_comment f64_of to_string from_str (before ++ after)).1 ≡ none)
      (printed : to_string
          (object (marker_fields (updated f64_of to_string from_str key value (before ++ after))))
        ≡ braced inner)
      (parsed : from_str (braced inner)
        ≡ some (
            object (marker_fields (updated f64_of to_string from_str key value (before ++ after)))))
      → let m = write_custom_field f64_of to_string from_str issue_id key value (before ++ after) in
        (m ≡ comment_create issue_id (stored_body m))
        × (read_custom_field f64_of to_string from_str j
              (before ++ record { id = id; body = some (stored_body m) } ∷ after)
            ≡ (if str_eq key j then settled value else null))
  unfolding write_custom_field read_custom_field lookup
  read_custom_field-create issue_id key value before after id j inner unmarked printed parsed =
      let stored =
        read_custom_field-stored issue_id key value (before ++ after) before after id j inner
          printed parsed (load_marker_comment-none before after unmarked) in
      (
        rw (load_marker_comment-no_id (before ++ after) unmarked) refl,
        stored ∙ rw (unmarked) (ground arith),
      )
