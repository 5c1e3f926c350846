-- ===== src/HttpParse/Messages/Tests.antt =====
-- learn/parse_http.go: messages with libraries for which every text is a primitive, and that know no
-- compression, one content type, and forms without entries.
use postman_insights_agent.Prelude.{
  ◌≡◌, ◌↔◌, refl, ◌∙◌, sym, true, false, none, some, List, [], ◌∷◌, length, ltb, arith, All, ◌==◌,
  if◌then◌else◌,
}
use postman_insights_agent.Prelude.Dict.{lookup, insert}
use postman_insights_agent.Prelude.Text.{codes, bytes_eq, bytes_beq_iff}
use postman_insights_agent.Traffic.{Bytes}
use postman_insights_agent.HttpParse.Elements.{
  IrLibrary, no_interpret_strings, Data, datum, primitive, no_meta, parse_elem, Top, text_map,
  text_entry, no_text_entries, scalar, array, item, no_items,
}
use postman_insights_agent.HttpParse.Elements.Paths.{
  Into, key, index, data_at, top_at, parsed, data_at-parse_elem,
}
use postman_insights_agent.HttpParse.Headers.{TextLibrary, Values, parse_header}
use postman_insights_agent.HttpParse.Headers.Secrets.{IsHarmless, parse_header-IsHarmless}
use postman_insights_agent.HttpParse.Bodies.{BodyLibrary, Stream, failed, parse_body, decode_body}
use postman_insights_agent.HttpParse.Bodies.Fuel.{Ends, parse_body-Ends}
use postman_insights_agent.HttpParse.Messages.{
  KeyLibrary, Message, all_data, decoded, fill_map, get_header,
}
use postman_insights_agent.HttpParse.Messages.Failures.{all_data-fails}
use postman_insights_agent.HttpParse.Messages.Keys.{IsFiled, fill_map-All}

abbrev text : TextLibrary
text = record { sort_strings = λ xs. xs; to_lower = λ v. v }

abbrev ir : IrLibrary
ir = record {
  P = Bytes;
  K = Bytes;
  S = Bytes;
  categorize = λ v. v;
  obfuscated = λ _. codes "x";
  string_primitive = λ v. v;
  int64 = λ _. none;
  number = λ v. v;
  text_of = λ v. v;
  bytes_of = λ v. v;
  to_primitive_value = λ s _. some s;
  sprint = λ k. k;
}

abbrev lib : BodyLibrary ir
lib = record {
  gzip_reader = λ _. none;
  flate_reader = λ s. record s { broken = true };
  brotli_reader = λ s. record s { broken = true };
  parse_media_type = λ t. if t == [] then none else some (t, []);
  charset = λ _. none;
  decode_json = λ _. none;
  decode_yaml = λ _. none;
  parse_query = λ _. some [];
  parts = λ _ _. ([], false);
  events = λ _. ([], false);
  parts_shorter = λ _ _. tt;
}

-- A primitive by its text, and all else alike.
abbrev hash_of : Data Bytes → Bytes
hash_of (datum (primitive p) m) = p
hash_of _ = []

abbrev keys : KeyLibrary ir
keys = record {
  hash = hash_of;
  equal = λ d e. hash_of d == hash_of e;
  to_witness_id = λ stream seq. stream;
}

abbrev top : Top Bytes Bytes
top = text_map (text_entry (codes "a") (array (item (scalar (codes "7")) no_items)) no_text_entries)

abbrev path : List Into
path = key (codes "a") ∷ index 0 ∷ []

data_at-parse_elem_example :
    data_at path (parse_elem ir no_interpret_strings top)
    ≡ parsed ir no_interpret_strings (top_at ir path top)
data_at-parse_elem_example = data_at-parse_elem ir no_interpret_strings path top

abbrev header : Values
header =
    (codes "authorization", codes "Bearer secret" ∷ [])
    ∷ (codes "accept", codes "text/html" ∷ [])
    ∷ (codes "cookie", codes "a=b" ∷ [])
    ∷ []

parse_header-IsHarmless_example : All (IsHarmless text ir header) (parse_header text ir header none)
parse_header-IsHarmless_example = parse_header-IsHarmless text ir header

two_of_three : length (parse_header text ir header none) ≡ 2
unfolding parse_header lookup
two_of_three = refl

abbrev stream : Stream
stream = record { bytes = codes "hi"; broken = false }

parse_body-Ends_example : Ends (parse_body ir lib 3 200 (codes "text/plain") stream)
parse_body-Ends_example = parse_body-Ends ir lib 3 200 (codes "text/plain") stream (omega arith)

-- A body without a content type cannot be decoded.
abbrev message : Message
message = record {
  stream_id = 1;
  seq = 2;
  header = [];
  cookies = [];
  body = codes "hi";
  body_decompressed = false;
}

all_data-fails_example :
    Ends (all_data text ir lib keys 200 message [])
    × (all_data text ir lib keys 200 message [] ≡ failed
        ↔ (ltb 0 (length message.body) ≡ true) × (decoded text ir lib keys message ≡ none))
all_data-fails_example = all_data-fails text ir lib keys 200 message []

no_content_type : all_data text ir lib keys 200 message [] ≡ failed
unfolding all_data lookup decode_body get_header
no_content_type = refl

abbrev datas : List (Data Bytes)
datas =
    datum (primitive (codes "a")) no_meta
    ∷ datum (primitive (codes "b")) no_meta
    ∷ datum (primitive (codes "a")) no_meta
    ∷ []

abbrev filled : List (Bytes × Data Bytes)
filled =
    (codes "a", datum (primitive (codes "a")) no_meta)
    ∷ (codes "b", datum (primitive (codes "b")) no_meta)
    ∷ []

fills : fill_map text ir lib keys datas [] ≡ some filled
unfolding fill_map lookup insert
fills = refl

equal_refl : (d : Data Bytes) → keys.equal d d ≡ true
equal_refl d = (bytes_beq_iff (hash_of d) (hash_of d)).1 refl

equal_sym : (d e : Data Bytes) → keys.equal d e ≡ true → keys.equal e d ≡ true
equal_sym d e h =
    (bytes_beq_iff (hash_of e) (hash_of d)).1 (sym ((bytes_beq_iff (hash_of d) (hash_of e)).0 h))

equal_trans :
    (d e f : Data Bytes) → keys.equal d e ≡ true → keys.equal e f ≡ true → keys.equal d f ≡ true
equal_trans d e f h k =
    (bytes_beq_iff (hash_of d) (hash_of f)).1
      ((bytes_beq_iff (hash_of d) (hash_of e)).0 h ∙ (bytes_beq_iff (hash_of e) (hash_of f)).0 k)

fill_map-All_example : All (IsFiled text ir lib keys equal_refl equal_sym equal_trans filled) datas
fill_map-All_example = fill_map-All text ir lib keys equal_refl equal_sym equal_trans datas [] fills
