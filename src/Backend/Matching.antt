-- ===== src/Backend/Matching.antt =====
-- trace/backend_collector.go and learn/learn.go: a request and its response make the same witness,
-- whichever of them comes first.
use postman_insights_agent.Prelude.{
  ℕ, ◌%◌, ◌^◌, ◌≡◌, refl, true, false, none, some, List, String, string_eq, nat_eq, ◌==◌,
}
use postman_insights_agent.Traffic.{Traffic, Bytes}
use postman_insights_agent.Witnesses.{
  HttpMeta, WitnessWithInfo, Method, merge_witness, take_half, compute_processing_latency,
  with_latency, latency_of, unknown_http_method_meta,
}
use postman_insights_agent.Backend.Queue.{PartialWitness, new_witness, combine, flip}

module _ {Data : Type 0} where
  -- What learn.ParseHTTP makes of a request and of a response.
  abbrev pub request_half : ℕ → List (String × Data) → HttpMeta → PartialWitness Data
  request_half key args meta = record {
    pair_key = key;
    witness = record { args = some args; responses = none; meta = meta };
  }

  abbrev pub response_half : ℕ → List (String × Data) → PartialWitness Data
  response_half key responses = record {
    pair_key = key;
    witness = record { args = none; responses = some responses; meta = unknown_http_method_meta };
  }

  -- The client's end, the server's end, and what was said: what is the same of a pair.
  abbrev pub exchange : WitnessWithInfo Data → (Bytes × ℕ) × (Bytes × ℕ) × ℕ × Method Data
  exchange w = ((w.src_ip, w.src_port), (w.dst_ip, w.dst_port), w.id, w.witness)

  -- A request with a method, and a response that goes the other way, make the same exchange in
  -- either order: the request's arguments and metadata with the processing latency between the two,
  -- the response's responses, and the addresses and ports of the request.
  pub combine-exchange :
      (key : ℕ) (args responses : List (String × Data)) (meta : HttpMeta) (req resp : Traffic)
      → (meta.method == "") ≡ false
      → (req.final_packet_time == 0) ≡ false
      → (resp.observation_time == 0) ≡ false
      → resp.src_ip ≡ req.dst_ip
      → resp.src_port ≡ req.dst_port
      → resp.dst_ip ≡ req.src_ip
      → resp.dst_port ≡ req.src_port
      → let whole : (Bytes × ℕ) × (Bytes × ℕ) × ℕ × Method Data = (
        (req.src_ip, req.src_port % 2 ^ 16),
        (req.dst_ip, req.dst_port % 2 ^ 16),
        key,
        record {
          args = some args;
          responses = some responses;
          meta = record meta {
            processing_latency = latency_of req.final_packet_time resp.observation_time;
          };
        },
      ) in
        (exchange (
            combine
              (new_witness req (request_half key args meta) true)
              (response_half key responses).witness
              false
              resp)
          ≡ whole)
        × (exchange (
              combine
                (new_witness resp (response_half key responses) false)
                (request_half key args meta).witness
                true
                req)
            ≡ whole)
  unfolding combine new_witness flip merge_witness take_half compute_processing_latency with_latency
  combine-exchange key args responses meta req resp named end start si sp di dp =
      (rw (named, end, start) refl, rw (end, start, si, sp, di, dp) refl)
