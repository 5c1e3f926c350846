-- ===== src/HttpParse/Messages.antt =====
-- learn/parse_http.go: ParseHTTP and parseMethodMeta.
pub mod Failures
pub mod Keys
mod Tests
use postman_insights_agent.Prelude.{
  ℕ, suc, Bool, true, false, ◌&&◌, not, Option, none, some, List, [], ◌∷◌, ◌++◌, length, ltb,
  if◌then◌else◌, ◌==◌,
}
use mathlib.Core.List.{reverse}
use postman_insights_agent.Prelude.Dict.{lookup, insert}
use postman_insights_agent.Prelude.Text.{codes, bytes_eq}
use postman_insights_agent.Traffic.{Bytes}
use postman_insights_agent.HttpParse.Elements.{IrLibrary, Data}
use postman_insights_agent.HttpParse.Headers.{
  TextLibrary, Values, Cookie, parse_request, parse_response,
}
use postman_insights_agent.HttpParse.Bodies.{
  BodyLibrary, Stream, Result, ok, failed, out_of_fuel, decode_body, attempt_decompress, parse_body,
  capture_unparsable_body,
}

-- What requests and responses have in common.
pub record Message : Type 0 where
  pub stream_id : ℕ
  pub seq : ℕ
  pub header : Values
  pub cookies : List Cookie
  pub body : Bytes
  pub body_decompressed : Bool

-- The method, the path of the URL and its parameters, if there is a URL, and the host.
pub record RequestLine : Type 0 where
  pub method : Bytes
  pub url : Option (Bytes × Values)
  pub host : Bytes

-- akinet.ParsedNetworkContent, as ParseHTTP tells it apart.
pub data Content : Type 0 where
  http_request : RequestLine → Message → Content
  http_response : ℕ → Message → Content
  not_http : Content

-- pb.HTTPMethodMeta
pub record MethodMeta : Type 0 where
  pub method : Bytes
  pub path_template : Bytes
  pub host : Bytes

unknown_http_method_meta : MethodMeta
unknown_http_method_meta = record { method = []; path_template = []; host = [] }

pub parse_method_meta : RequestLine → MethodMeta
parse_method_meta r = record {
  method = r.method;
  path_template = elim r.url [ some (path, _) ↦ path | none ↦ [] ];
  host = r.host;
}

-- ir_hash.HashDataToString, proto.Equal and the UUID of a witness.
pub record KeyLibrary (ir : IrLibrary) : Type 0 where
  pub hash : Data ir.P → Bytes
  pub equal : Data ir.P → Data ir.P → Bool
  pub to_witness_id : ℕ → ℕ → ℕ

-- PartialWitness: its arguments if it is a request and its responses if not.
pub record PartialWitness (D : Type 0) : Type 0 where
  pub meta : MethodMeta
  pub args : Option (List (Bytes × D))
  pub responses : Option (List (Bytes × D))
  pub pair_key : ℕ

-- http.Header.Get, of a name in its canonical form.
pub get_header : Bytes → Values → Bytes
get_header name header = elim (lookup name header) [ none ↦ [] | some [] ↦ [] | some (v ∷ _) ↦ v ]

module _ (text : TextLibrary) (ir : IrLibrary) (lib : BodyLibrary ir) (keys : KeyLibrary ir) where
  open ir use {P}
  open keys use {hash, equal, to_witness_id}

  abbrev pub content_type : Message → Bytes
  content_type m = get_header (codes "Content-Type") m.header

  -- decodeBody on a new reader of the body.
  pub decoded : Message → Option Stream
  decoded m =
      let encodings : List Bytes = elim (lookup (codes "Content-Encoding") m.header) [
        | some vs ↦ vs
        | none ↦ []
      ] in
      decode_body ir lib (reverse encodings) (content_type m)
        (record { bytes = m.body; broken = false }) m.body_decompressed

  -- parseBody with enough fuel for the stream.
  pub parse_all : ℕ → Bytes → Stream → Result (Data P)
  parse_all status_code media s = parse_body ir lib (suc (length s.bytes)) status_code media s

  -- What is made of a body that was decoded: parsed; or parsed after a common decompression; or taken
  -- as it is.
  body_data : ℕ → Message → Stream → Result (Data P)
  unfolding parse_all decoded
  body_data status_code m s =
      let captured = ok (capture_unparsable_body ir lib (decoded m) (content_type m) status_code) in
      elim (parse_all status_code (content_type m) s) [
        | ok d ↦ ok d
        | out_of_fuel ↦ out_of_fuel
        | failed ↦ elim (attempt_decompress ir lib m.body) [
          | none ↦ captured
          | some fallback ↦ elim (parse_all status_code (content_type m) fallback) [
            | ok d ↦ ok d
            | out_of_fuel ↦ out_of_fuel
            | failed ↦ captured
          ]
        ]
      ]

  -- The data of a message: those of its headers, and that of its body if it has one.
  pub all_data : ℕ → Message → List (Data P) → Result (List (Data P))
  unfolding body_data decoded
  all_data status_code m datas =
      if ltb 0 (length m.body)
      then elim (decoded m) [
        | none ↦ failed
        | some s ↦ elim (body_data status_code m s) [
          | ok d ↦ ok (datas ++ d ∷ [])
          | failed ↦ failed
          | out_of_fuel ↦ out_of_fuel
        ]
      ]
      else ok datas

  -- The loop that fills the data map; `none` is a collision of keys.
  pub fill_map : List (Data P) → List (Bytes × Data P) → Option (List (Bytes × Data P))
  fill_map [] m = some m
  fill_map (d ∷ ds) m =
      let rest = fill_map ds (insert (hash d) d m) in
      elim (lookup (hash d) m) [
        | none ↦ rest
        | some existing ↦ if equal d existing then rest else none
      ]

  -- The end of ParseHTTP.
  witness_of :
      (List (Bytes × Data P) → PartialWitness (Data P))
      → Result (List (Data P))
      → Result (PartialWitness (Data P))
  unfolding fill_map
  witness_of make (ok datas) = elim (fill_map datas []) [ none ↦ failed | some m ↦ ok (make m) ]
  witness_of make failed = failed
  witness_of make out_of_fuel = out_of_fuel

  pub parse_http : Content → Result (PartialWitness (Data P))
  unfolding witness_of all_data parse_method_meta unknown_http_method_meta
  parse_http (http_request r m) =
      let params : Option Values = elim r.url [ some (_, query) ↦ some query | none ↦ none ] in
      witness_of
        (λ args. record {
          meta = parse_method_meta r;
          args = some args;
          responses = none;
          pair_key = to_witness_id m.stream_id m.seq;
        })
        (all_data 0 m (parse_request text ir params m.header m.cookies))
  parse_http (http_response status_code m) =
      witness_of
        (λ responses. record {
          meta = unknown_http_method_meta;
          args = none;
          responses = some responses;
          pair_key = to_witness_id m.stream_id m.seq;
        })
        (all_data status_code m (parse_response text ir m.header m.cookies status_code))
  parse_http not_http = failed
