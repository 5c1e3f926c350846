-- ===== src/HttpParse/Bodies/Fuel.antt =====
-- learn/parse_http.go: parseBody and parseMultipartBody call one another, on smaller and smaller parts.
use postman_insights_agent.Prelude.{
  ℕ, zero, suc, ◌<◌, List, [], ◌∷◌, arith, length, All, if_cases, option_cases, ◌==◌,
}
use postman_insights_agent.Prelude.Text.{codes, bytes_eq}
use postman_insights_agent.Traffic.{Bytes}
use postman_insights_agent.HttpParse.Elements.{IrLibrary, Data, Fields, no_fields, put_field}
use postman_insights_agent.HttpParse.Bodies.{
  BodyLibrary, Stream, Part, Result, ok, failed, out_of_fuel, parse_parts, parse_multipart_body,
  parse_body, parse_body_as, get_content_type_from_media_type,
}

-- A result that is data or an error.
abbrev pub Ends : {A : Type 0} → Result A → Type 0
Ends (ok a) = Unit
Ends failed = Unit
Ends out_of_fuel = ⊥

Ends-bind :
    {A B : Type 0} (r : Result A) (f : A → Result B)
    → Ends r
    → ((a : A) → Ends (f a))
    → Ends (elim r [ ok a ↦ f a | failed ↦ failed | out_of_fuel ↦ out_of_fuel ])
Ends-bind (ok a) f e h = h a
Ends-bind failed f e h = tt
Ends-bind out_of_fuel f e h = e

module _ (ir : IrLibrary) (lib : BodyLibrary ir) where
  open ir use {P}
  open lib use {parts, parts_shorter, parse_media_type}

  parse_parts-Ends :
      (parse : Bytes → Stream → Result (Data P)) (n : ℕ)
      → ((t : Bytes) (s : Stream) → length s.bytes < n → Ends (parse t s))
      → (ps : List Part) (fs : Fields P) → All (λ p. length p.part_stream.bytes < n) ps
      → Ends (parse_parts ir lib parse ps fs)
  unfolding parse_parts
  parse_parts-Ends parse n ends [] fs h = tt
  parse_parts-Ends parse n ends (p ∷ ps) fs h =
      Ends-bind (parse _ p.part_stream) _ (ends _ p.part_stream h.0)
        (λ d. parse_parts-Ends parse n ends ps (put_field p.form_name d fs) h.1)

  parse_multipart_body-Ends :
      (parse : Bytes → Stream → Result (Data P)) (multipart_type boundary : Bytes) (s : Stream)
      (status_code : ℕ)
      → ((t : Bytes) (s' : Stream) → length s'.bytes < length s.bytes → Ends (parse t s'))
      → Ends (parse_multipart_body ir lib parse multipart_type boundary s status_code)
  unfolding parse_multipart_body
  parse_multipart_body-Ends parse multipart_type boundary s status_code ends =
      Ends-bind (parse_parts ir lib parse (parts boundary s).0 no_fields) _
        (parse_parts-Ends parse (length s.bytes) ends (parts boundary s).0 no_fields
          (parts_shorter boundary s))
        (λ fs. if_cases Ends (parts boundary s).1 (λ _. tt) (λ _. tt))

  -- With more fuel than the body has bytes, parseBody ends, with data or with an error.
  pub parse_body-Ends :
      (fuel status_code : ℕ) (content_type : Bytes) (s : Stream)
      → length s.bytes < fuel
      → Ends (parse_body ir lib fuel status_code content_type s)
  unfolding parse_body
  parse_body-Ends zero status_code content_type s h = absurd (omega arith)
  parse_body-Ends (suc fuel) status_code content_type s h =
      let smaller = λ (t : Bytes) (s' : Stream) (l : length s'.bytes < length s.bytes).
        parse_body-Ends fuel status_code t s' (omega arith) in
      option_cases (Ends {A = Data P}) (parse_media_type content_type) (λ _. tt)
        (λ media _.
          if_cases (Ends {A = Data P}) (media.0 == codes "multipart/form-data")
            (λ _. parse_multipart_body-Ends _ _ _ s status_code smaller)
            (λ _.
              if_cases (Ends {A = Data P}) (media.0 == codes "multipart/mixed")
                (λ _. parse_multipart_body-Ends _ _ _ s status_code smaller)
                (λ _.
                  option_cases (Ends {A = Data P})
                    (parse_body_as ir lib (get_content_type_from_media_type media.0) s) (λ _. tt)
                    (λ d _. tt))))
