-- ===== src/HttpParse/Elements.antt =====
-- learn/parse_http.go: parseElem, parseDataStruct and parseDataList, from what the decoders of JSON,
-- YAML and forms return to the IR.
pub mod Paths
use postman_insights_agent.Prelude.{
  ℕ, String, Bool, true, false, Option, none, some, List, [], ◌∷◌, ◌==◌, if◌then◌else◌,
}
use postman_insights_agent.Prelude.Text.{bytes_eq}
use postman_insights_agent.Traffic.{Bytes}

-- pb.HTTPAuth_HTTPAuthType
pub data AuthType : Type 0 where
  bearer basic unknown_auth : AuthType

-- pb.HTTPBody_ContentType
pub data ContentType : Type 0 where
  json form_url_encoded yaml octet_stream text_plain text_html event_stream other : ContentType

-- pb.HTTPMeta: where a datum stood in the message.
pub data Location : Type 0 where
  at_query : Bytes → Location
  at_header : Bytes → Location
  at_cookie : Bytes → Location
  at_auth : AuthType → Location
  at_body : (content_type : ContentType) (other_type : Bytes) (parsing_error : Bool) → Location
  at_multipart : Bytes → Location

-- pb.DataMeta, with the response code, which is 0 in a request.
pub data Meta : Type 0 where
  no_meta : Meta
  http_meta : Location → ℕ → Meta

-- spec_util.InterpretStrings
pub data Interpret : Type 0 where
  interpret_strings no_interpret_strings : Interpret

-- pb.Data, with pb.Struct and pb.List. `P` are the primitives, pb.Primitive.
mutual
  pub data Data (P : Type 0) : Type 0 where
    datum : Value P → Meta → Data P

  pub data Value (P : Type 0) : Type 0 where
    primitive : P → Value P
    struct : Fields P → Value P
    list_of : Elems P → Value P
    optional_none : Value P

  pub data Fields (P : Type 0) : Type 0 where
    no_fields : Fields P
    field : Bytes → Data P → Fields P → Fields P

  pub data Elems (P : Type 0) : Type 0 where
    no_elems : Elems P
    elem_of : Data P → Elems P → Elems P

-- What the decoders return as interface{}: a map of the YAML decoder, with any keys; a map with texts
-- as keys; an array; a json.Number; and any other value. The entries of a map are in the order in which
-- it is visited.
mutual
  pub data Top (K S : Type 0) : Type 0 where
    any_map : Entries K S → Top K S
    text_map : TextEntries K S → Top K S
    array : Items K S → Top K S
    json_number : Bytes → Top K S
    scalar : S → Top K S

  pub data Entries (K S : Type 0) : Type 0 where
    no_entries : Entries K S
    entry : K → Top K S → Entries K S → Entries K S

  pub data TextEntries (K S : Type 0) : Type 0 where
    no_text_entries : TextEntries K S
    text_entry : Bytes → Top K S → TextEntries K S → TextEntries K S

  pub data Items (K S : Type 0) : Type 0 where
    no_items : Items K S
    item : Top K S → Items K S → Items K S

-- spec_util, fmt and encoding/json: `categorize` is CategorizeString with ToProto, `obfuscated` is
-- CategorizeString, Obfuscate and ToProto, `string_primitive` NewPrimitiveString; `int64` is Int64 of a
-- json.Number and `number` the GoValue of CategorizeString; `to_primitive_value` is ToPrimitiveValue
-- with ToProto; `text_of` makes a value of a text or of bytes; `sprint` is fmt.Sprintf with %v.
pub record IrLibrary : Type 1 where
  pub P : Type 0
  pub K : Type 0
  pub S : Type 0
  pub categorize : Bytes → P
  pub obfuscated : Bytes → P
  pub string_primitive : Bytes → P
  pub int64 : Bytes → Option S
  pub number : Bytes → S
  pub text_of : Bytes → S
  pub bytes_of : Bytes → S
  pub to_primitive_value : S → Interpret → Option P
  pub sprint : K → Bytes

-- dataMap[k] = d
unfoldable pub put_field : {P : Type 0} → Bytes → Data P → Fields P → Fields P
put_field k d no_fields = field k d no_fields
put_field k d (field j e fs) = if j == k then field k d fs else field j e (put_field k d fs)

module _ (lib : IrLibrary) where
  open lib use {P, K, S, int64, number, to_primitive_value, sprint}

  pub primitive_data : S → Interpret → Data P
  primitive_data s interpret = elim (to_primitive_value s interpret) [
    | some p ↦ datum (primitive p) no_meta
    | none ↦ datum optional_none no_meta
  ]

  -- A map of the YAML decoder is first copied to one with texts as keys, where a later entry with the
  -- same text replaces an earlier one; each value is parsed here before it is put there.
  mutual
    pub parse_elem : Interpret → Top K S → Data P
    parse_elem interpret (any_map es) =
        datum (struct (parse_entries interpret es no_fields)) no_meta
    parse_elem interpret (text_map es) = datum (struct (parse_data_struct interpret es)) no_meta
    parse_elem interpret (array xs) = datum (list_of (parse_data_list interpret xs)) no_meta
    parse_elem interpret (json_number text) =
        primitive_data (elim (int64 text) [ some v ↦ v | none ↦ number text ]) interpret
    parse_elem interpret (scalar s) = primitive_data s interpret

    pub parse_entries : Interpret → Entries K S → Fields P → Fields P
    parse_entries interpret no_entries fs = fs
    parse_entries interpret (entry k v es) fs =
        parse_entries interpret es (put_field (sprint k) (parse_elem interpret v) fs)

    pub parse_data_struct : Interpret → TextEntries K S → Fields P
    parse_data_struct interpret no_text_entries = no_fields
    parse_data_struct interpret (text_entry k v es) =
        field k (parse_elem interpret v) (parse_data_struct interpret es)

    pub parse_data_list : Interpret → Items K S → Elems P
    parse_data_list interpret no_items = no_elems
    parse_data_list interpret (item x xs) =
        elem_of (parse_elem interpret x) (parse_data_list interpret xs)
