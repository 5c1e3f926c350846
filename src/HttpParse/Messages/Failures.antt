-- ===== src/HttpParse/Messages/Failures.antt =====
-- learn/parse_http.go: when ParseHTTP has no data for a message.
use postman_insights_agent.Prelude.{
  ℕ, suc, ◌≡◌, ◌↔◌, refl, true, none, List, length, ltb, arith, Option-cases, inl, inr,
  option_cases,
}
use postman_insights_agent.Traffic.{Bytes}
use postman_insights_agent.HttpParse.Elements.{IrLibrary, Data}
use postman_insights_agent.HttpParse.Headers.{TextLibrary}
use postman_insights_agent.HttpParse.Bodies.{
  BodyLibrary, Stream, Result, ok, failed, out_of_fuel, attempt_decompress,
}
use postman_insights_agent.HttpParse.Bodies.Fuel.{Ends, parse_body-Ends}
use postman_insights_agent.HttpParse.Messages.{
  KeyLibrary, Message, decoded, all_data, body_data, parse_all, content_type,
}

module _ (text : TextLibrary) (ir : IrLibrary) (lib : BodyLibrary ir) (keys : KeyLibrary ir) where
  open ir use {P}

  parse_all-Ends :
      (status_code : ℕ) (media : Bytes) (s : Stream)
      → Ends (parse_all text ir lib keys status_code media s)
  unfolding parse_all
  parse_all-Ends status_code media s =
      parse_body-Ends ir lib (suc (length s.bytes)) status_code media s (omega arith)

  abbrev IsOk : {A : Type 0} → Result A → Type 0
  IsOk (ok a) = Unit
  IsOk _ = ⊥

  or_else-IsOk :
      {A : Type 0} (r f : Result A)
      → Ends r
      → IsOk f
      → IsOk (elim r [ ok a ↦ ok a | failed ↦ f | out_of_fuel ↦ out_of_fuel ])
  or_else-IsOk (ok a) f e h = tt
  or_else-IsOk failed f e h = h
  or_else-IsOk out_of_fuel f e h = e

  body_data-IsOk :
      (status_code : ℕ) (m : Message) (s : Stream)
      → IsOk (body_data text ir lib keys status_code m s)
  unfolding body_data
  body_data-IsOk status_code m s =
      or_else-IsOk (parse_all text ir lib keys status_code (content_type text ir lib keys m) s) _
        (parse_all-Ends status_code (content_type text ir lib keys m) s)
        (option_cases (IsOk {A = Data P}) (attempt_decompress ir lib m.body) (λ _. tt)
          (λ fallback _.
            or_else-IsOk
              (parse_all text ir lib keys status_code (content_type text ir lib keys m) fallback) _
              (parse_all-Ends status_code (content_type text ir lib keys m) fallback) tt))

  ok-cases : {A : Type 0} (r : Result A) → IsOk r → (a : A) × (r ≡ ok a)
  ok-cases (ok a) h = (a, refl)
  ok-cases failed h = absurd h
  ok-cases out_of_fuel h = absurd h

  -- The data of a message are had, whatever is wrong with its body, unless it has a body that cannot
  -- be decoded: then, and only then, is there an error. The parse always ends.
  pub all_data-fails :
      (status_code : ℕ) (m : Message) (datas : List (Data P))
      → Ends (all_data text ir lib keys status_code m datas)
        × (all_data text ir lib keys status_code m datas ≡ failed
            ↔ (ltb 0 (length m.body) ≡ true) × (decoded text ir lib keys m ≡ none))
  unfolding all_data
  all_data-fails status_code m datas = elim (Option-cases (decoded text ir lib keys m)) [
    | inl undecoded ↦ ground (arith, undecoded)
    | inr (s, readable) ↦
        let (d, parsed) =
          ok-cases (body_data text ir lib keys status_code m s) (body_data-IsOk status_code m s) in
        ground (arith, readable, parsed)
  ]
