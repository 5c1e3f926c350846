-- ===== src/HttpParse/Bodies.antt =====
-- learn/parse_http.go: decompression, content types and parseBody; learn/parse_event_stream.go. A
-- reader is the bytes that it gives and whether it ends in an error; reading one makes a new reader of
-- the rest, which is never used again here.
pub mod Fuel
use postman_insights_agent.Prelude.{
  ℕ, zero, suc, ◌*◌, ◌<◌, Bool, true, false, ◌&&◌, ◌||◌, Option, none, some, List, [], ◌∷◌, ◌++◌,
  map, take, drop, length, All, ltb, leb, ◌==◌, if◌then◌else◌,
}
use postman_insights_agent.Prelude.Dict.{lookup}
use postman_insights_agent.Prelude.Text.{codes, bytes_eq}
use postman_insights_agent.Traffic.{Bytes}
use postman_insights_agent.JsonStrip.{strip_bytes}
use postman_insights_agent.HttpParse.Elements.{
  IrLibrary, ContentType, json, form_url_encoded, yaml, octet_stream, text_plain, text_html,
  event_stream, other, at_body, at_multipart, Meta, no_meta, http_meta, Interpret,
  interpret_strings, no_interpret_strings, Data, datum, primitive, struct, list_of, Fields,
  no_fields, Elems, no_elems, elem_of, Top, text_map, array, scalar, TextEntries, no_text_entries,
  text_entry, Items, no_items, item, put_field, parse_elem,
}
use postman_insights_agent.HttpParse.Headers.{Values}

-- io.Reader, by what ReadAll makes of it.
pub record Stream : Type 0 where
  pub bytes : Bytes
  pub broken : Bool

-- What a reader of mime/multipart gives of one part.
pub record Part : Type 0 where
  pub part_content_type : Bytes
  pub form_name : Bytes
  pub part_stream : Stream

-- The packages that are called: the readers of compress/gzip, compress/flate and brotli, of which only
-- the first can fail at once; mime.ParseMediaType; ianaindex and transform, for a character set an
-- error, or whether it is UTF-8 and its decoder; the decoders of JSON and YAML; url.ParseQuery; the
-- parts of mime/multipart and the events of sseparser, with whether an error other than the end
-- follows. A part is shorter than the body that it is in, which has its boundaries too.
pub record BodyLibrary (ir : IrLibrary) : Type 0 where
  pub gzip_reader : Stream → Option Stream
  pub flate_reader : Stream → Stream
  pub brotli_reader : Stream → Stream
  pub parse_media_type : Bytes → Option (Bytes × List (Bytes × Bytes))
  pub charset : Bytes → Option (Bool × (Stream → Stream))
  pub decode_json : Stream → Option (Top ir.K ir.S)
  pub decode_yaml : Stream → Option (Top ir.K ir.S)
  pub parse_query : Bytes → Option Values
  pub parts : Bytes → Stream → List Part × Bool
  pub events : Stream → List (List (Bytes × Bytes)) × Bool
  pub parts_shorter :
      (boundary : Bytes) (s : Stream)
      → All (λ p. length p.part_stream.bytes < length s.bytes) (parts boundary s).0

abbrev pub max_fallback_input : ℕ
max_fallback_input = 1024 * 1024

abbrev pub max_fallback_output : ℕ
max_fallback_output = 10 * 1024 * 1024

abbrev pub max_buffered_body : ℕ
max_buffered_body = 5 * 1024 * 1024

abbrev pub small_body_sample : ℕ
small_body_sample = 10 * 1024

-- limitedBufferBody: ReadAll of a reader of at most `limit` bytes, which meets the error only if it
-- comes that far.
pub limited_buffer_body : Stream → ℕ → Option Bytes
limited_buffer_body s limit =
    if leb limit (length s.bytes)
    then some (take limit s.bytes)
    else if s.broken
    then none
    else some s.bytes

-- strings.HasSuffix
has_suffix : Bytes → Bytes → Bool
has_suffix text suffix = text == suffix || longer text
  where
    longer : Bytes → Bool
    longer [] = false
    longer (c ∷ cs) = cs == suffix || longer cs

pub get_content_type_from_media_type : Bytes → ContentType
unfolding has_suffix
get_content_type_from_media_type t =
    if t == codes "application/json"
    then json
    else if t == codes "application/x-www-form-urlencoded"
    then form_url_encoded
    else if t == codes "application/yaml"
        || t == codes "application/x-yaml"
        || t == codes "text/yaml"
        || t == codes "text/x-yaml"
    then yaml
    else if t == codes "application/octet-stream"
    then octet_stream
    else if t == codes "text/plain" || t == codes "text/csv"
    then text_plain
    else if t == codes "text/html"
    then text_html
    else if t == codes "text/event-stream"
    then event_stream
    else if has_suffix t (codes "+json")
    then json
    else other

pub data Result (A : Type 0) : Type 0 where
  ok : A → Result A
  failed : Result A
  out_of_fuel : Result A

abbrev pub of_option : {A : Type 0} → Option A → Result A
of_option none = failed
of_option (some a) = ok a

-- bodyData.Meta = …
abbrev pub with_meta : {P : Type 0} → Data P → Meta → Data P
with_meta (datum v _) m = datum v m

module _ (ir : IrLibrary) (lib : BodyLibrary ir) where
  open ir use {P, K, S, string_primitive, categorize, text_of, bytes_of}
  open lib use {
    gzip_reader, flate_reader, brotli_reader, parse_media_type, charset, decode_json, decode_yaml,
    parse_query, parts, events,
  }

  pub decompress : Bytes → Stream → Option Stream
  decompress compression body =
      if compression == codes "gzip"
      then gzip_reader body
      else if compression == codes "deflate"
      then some (flate_reader body)
      else if compression == codes "identity"
      then some body
      else if compression == codes "br"
      then some (brotli_reader body)
      else none

  -- The loop over fallbackDecompressions.
  try_decompressions : List Bytes → Bytes → Option Stream
  try_decompressions [] body = none
  try_decompressions (algorithm ∷ algorithms) body =
      let rest = try_decompressions algorithms body in
      elim (decompress algorithm (record { bytes = body; broken = false })) [
        | none ↦ rest
        | some dr ↦ elim (limited_buffer_body dr max_fallback_output) [
          | none ↦ rest
          | some buffered ↦ some (record { bytes = buffered; broken = false })
        ]
      ]

  pub attempt_decompress : Bytes → Option Stream
  unfolding try_decompressions
  attempt_decompress body =
      if ltb max_fallback_input (length body)
      then none
      else try_decompressions (codes "deflate" ∷ codes "gzip" ∷ codes "br" ∷ []) body

  -- The loop over the values of Content-Encoding, from the last to the first; the list is in that
  -- order.
  pub undo_encodings : List Bytes → Stream → Option Stream
  undo_encodings [] body = some body
  undo_encodings (c ∷ cs) body = elim (decompress c body) [
    | none ↦ none
    | some b ↦ undo_encodings cs b
  ]

  -- decodeBody, with the values of Content-Encoding, the last first, and the Content-Type.
  unfoldable pub decode_body : List Bytes → Bytes → Stream → Bool → Option Stream
  unfolding undo_encodings decompress
  decode_body encodings content_type body body_decompressed =
      elim (if body_decompressed then some body else undo_encodings encodings body) [
        | none ↦ none
        | some body' ↦ elim (parse_media_type content_type) [
          | none ↦ none
          | some (_, params) ↦ elim (lookup (codes "charset") params) [
            | none ↦ some body'
            | some cs ↦ elim (charset cs) [
              | none ↦ none
              | some (is_utf8, decoder) ↦ some (if is_utf8 then body' else decoder body')
            ]
          ]
        ]
      ]

  pub parse_http_body_json : Stream → Option (Data P)
  parse_http_body_json s = elim (decode_json (record s { bytes = (strip_bytes false s.bytes).1 })) [
    | none ↦ none
    | some top ↦ some (parse_elem ir no_interpret_strings top)
  ]

  -- The texts of a form's key: one alone, or an array.
  texts : List Bytes → Items K S
  texts [] = no_items
  texts (v ∷ vs) = item (scalar (text_of v)) (texts vs)

  form_value : List Bytes → Top K S
  unfolding texts
  form_value (v ∷ []) = scalar (text_of v)
  form_value vs = array (texts vs)

  form_entries : Values → TextEntries K S
  unfolding form_value
  form_entries [] = no_text_entries
  form_entries ((k, vs) ∷ values) = text_entry k (form_value vs) (form_entries values)

  -- The inner loop of parseEventStream: the fields of an event and the text of its data so far.
  event_fields : List (Bytes × Bytes) → Fields P → Bytes → Fields P × Bytes
  event_fields [] fs text = (fs, text)
  event_fields ((name, v) ∷ rest) fs text =
      let is_data = name == codes "data" in
      let is_kept = name == codes "event" || name == codes "id" || name == codes "retry" in
      event_fields rest
        (if is_data
          then fs
          else if is_kept
          then put_field name (datum (primitive (string_primitive v)) no_meta) fs
          else fs)
        (if is_data then (if text == [] then v else text ++ b'\n' ∷ v) else text)

  event_data : List (Bytes × Bytes) → Data P
  unfolding event_fields parse_http_body_json
  event_data fields =
      let (fs, text) = event_fields fields no_fields [] in
      let parsed : Data P = elim (parse_http_body_json (record { bytes = text; broken = false })) [
        | none ↦ datum (primitive (string_primitive text)) no_meta
        | some json_body ↦ json_body
      ] in
      datum (struct (if text == [] then fs else put_field (codes "data") parsed fs)) no_meta

  event_list : List (List (Bytes × Bytes)) → Elems P
  unfolding event_data
  event_list [] = no_elems
  event_list (e ∷ es) = elem_of (event_data e) (event_list es)

  pub parse_event_stream : Stream → Option (Data P)
  unfolding event_list
  parse_event_stream s =
      let (es, fails) = events s in
      if fails then none else some (datum (list_of (event_list es)) no_meta)

  -- handleAsBlob and handleAsString
  sample_of : (Bytes → S) → Interpret → Stream → Option (Data P)
  sample_of make interpret s = elim (limited_buffer_body s small_body_sample) [
    | none ↦ none
    | some body ↦ some (parse_elem ir interpret (scalar (make body)))
  ]

  -- The switch of parseBody over the content type.
  pub parse_body_as : ContentType → Stream → Option (Data P)
  unfolding parse_http_body_json form_entries parse_event_stream sample_of
  parse_body_as json s = parse_http_body_json s
  parse_body_as form_url_encoded s = elim (limited_buffer_body s max_buffered_body) [
    | none ↦ none
    | some body ↦ elim (parse_query body) [
      | none ↦ none
      | some values ↦ some (parse_elem ir interpret_strings (text_map (form_entries values)))
    ]
  ]
  parse_body_as yaml s = elim (decode_yaml s) [
    | none ↦ none
    | some top ↦ some (parse_elem ir interpret_strings top)
  ]
  parse_body_as octet_stream s = sample_of bytes_of no_interpret_strings s
  parse_body_as text_plain s = sample_of text_of interpret_strings s
  parse_body_as text_html s = sample_of text_of no_interpret_strings s
  parse_body_as other s = sample_of bytes_of no_interpret_strings s
  parse_body_as event_stream s = parse_event_stream s

  -- The loop of parseMultipartBody; `parse` is parseBody.
  pub parse_parts : (Bytes → Stream → Result (Data P)) → List Part → Fields P → Result (Fields P)
  parse_parts parse [] fields = ok fields
  parse_parts parse (p ∷ ps) fields =
      let content_type =
        if p.part_content_type == [] then codes "text/plain" else p.part_content_type in
      elim (parse content_type p.part_stream) [
        | ok d ↦ parse_parts parse ps (put_field p.form_name d fields)
        | failed ↦ failed
        | out_of_fuel ↦ out_of_fuel
      ]

  pub parse_multipart_body :
      (Bytes → Stream → Result (Data P)) → Bytes → Bytes → Stream → ℕ → Result (Data P)
  unfolding parse_parts
  parse_multipart_body parse multipart_type boundary s status_code =
      let (ps, fails) = parts boundary s in
      elim (parse_parts parse ps no_fields) [
        | ok fields ↦
            if fails
            then failed
            else ok (datum (struct fields) (http_meta (at_multipart multipart_type) status_code))
        | failed ↦ failed
        | out_of_fuel ↦ out_of_fuel
      ]

  pub parse_body : ℕ → ℕ → Bytes → Stream → Result (Data P)
  unfolding parse_multipart_body parse_body_as
  parse_body zero status_code content_type s = out_of_fuel
  parse_body (suc fuel) status_code content_type s = elim (parse_media_type content_type) [
    | none ↦ failed
    | some (media_type, params) ↦
        let boundary : Bytes = elim (lookup (codes "boundary") params) [ some b ↦ b | none ↦ [] ] in
        let parse = parse_body fuel status_code in
        let parse_as = get_content_type_from_media_type media_type in
        if media_type == codes "multipart/form-data"
        then parse_multipart_body parse (codes "form-data") boundary s status_code
        else if media_type == codes "multipart/mixed"
        then parse_multipart_body parse (codes "mixed") boundary s status_code
        else elim (parse_body_as parse_as s) [
          | none ↦ failed
          | some d ↦ ok (with_meta d (http_meta (at_body parse_as media_type false) status_code))
        ]
  ]

  pub capture_unparsable_body : Option Stream → Bytes → ℕ → Data P
  capture_unparsable_body stream content_type status_code =
      let media_type : Bytes = elim (parse_media_type content_type) [
        | some (t, _) ↦ t
        | none ↦ []
      ] in
      let meta =
        http_meta (at_body (get_content_type_from_media_type media_type) content_type true)
          status_code in
      let placeholder = datum (primitive (categorize (codes "Cannot parse body"))) meta in
      elim stream [
        | none ↦ placeholder
        | some s ↦ if s.broken then placeholder else datum (primitive (categorize s.bytes)) meta
      ]
