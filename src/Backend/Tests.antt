-- ===== src/Backend/Tests.antt =====
-- trace/backend_collector.go: a request, its response, and a flush.
use postman_insights_agent.Prelude.{
  ℕ, ◌%◌, ◌^◌, ◌≤◌, ◌≡◌, refl, String, true, false, Option, none, some, List, [], ◌∷◌, arith,
  nat_eq, string_eq, ◌==◌, All,
}
use postman_insights_agent.Prelude.Dict.{lookup, insert}
use postman_insights_agent.Traffic.{Bytes, Content, http_request, http_response, Traffic}
use postman_insights_agent.Witnesses.{
  HttpMeta, Method, unknown_http_method_meta, latency_of, compute_processing_latency,
}
use postman_insights_agent.Backend.Capture.{CaptureLibrary}
use postman_insights_agent.Backend.Queue.{
  Backend, Setup, PartialWitness, queue_upload, transform, new_backend, new_witness, combine,
}
use postman_insights_agent.Backend.{
  Event, arrives, resumes, visits, run, step, resume, process, visit, run_job, flush_pair_cache,
}
use postman_insights_agent.Backend.Uploads.{uploads, uploads-le-one}
use postman_insights_agent.Backend.Matching.{
  request_half, response_half, exchange, combine-exchange,
}
use postman_insights_agent.Backend.Flushing.{Flushed, flush_pair_cache-empties}

-- The data of a test are the values of strings.
abbrev library : CaptureLibrary String
library = record {
  to_lower = λ s. s;
  split_spaces = λ s. s ∷ [];
  get_method = "GET";
  post_method = "POST";
  put_method = "PUT";
  matches_environment = λ s. s == "/environments/1";
  header_key = λ _. none;
  string_value = λ s. some s;
  response_code = λ s. if_not_found s;
  unmarshal_metadata = λ _. none;
}
  where
    if_not_found : String → ℕ
    if_not_found s = 404

abbrev get_meta : HttpMeta
get_meta = record unknown_http_method_meta { method = "GET"; path_template = "/"; host = "a.com" }

abbrev parse : Content → Option (PartialWitness String)
parse (http_request r) = some (request_half r.seq (("k", "secret") ∷ []) get_meta)
parse (http_response r) = some (response_half r.seq (("r", "body") ∷ []))
parse _ = none

abbrev blank : Method String → Method String
blank m = record m { args = none; responses = none }

abbrev setup : Setup String
setup = record {
  library = library;
  hostnames_env = "";
  send_witness_payloads = true;
  always_capture_payloads_paths = [];
  parse_http = parse;
  plugins = (λ m. (m, none)) ∷ [];
  apply_zero_primitives = blank;
  apply_redact_sensitive = λ m. m;
}

abbrev request : Traffic
request = record {
  net_interface = "eth0";
  src_ip = 10 ∷ [];
  src_port = 4000;
  dst_ip = 11 ∷ [];
  dst_port = 80;
  content =
      http_request (record { stream_id = 1; seq = 1; host = "a.com"; url = none; header = [] });
  observation_time = 1000;
  final_packet_time = 2000;
}

abbrev response : Traffic
response = record {
  net_interface = "eth0";
  src_ip = 11 ∷ [];
  src_port = 80;
  dst_ip = 10 ∷ [];
  dst_port = 4000;
  content = http_response (record { stream_id = 1; seq = 1; header = [] });
  observation_time = 9000;
  final_packet_time = 9500;
}

-- The request is kept; a flush and the response find it at the same time.
abbrev history : List Event
history =
    arrives request ∷ resumes 0 ∷ visits 5000 1 ∷ arrives response ∷ resumes 1 ∷ resumes 0 ∷ []

race : uploads 0 (run setup new_backend history) ≡ 1
unfolding new_backend run step resume process lookup visit run_job insert new_witness queue_upload
    combine compute_processing_latency transform
race = refl

uploads-le-one_example : uploads 0 (run setup new_backend history) ≤ 1
uploads-le-one_example = uploads-le-one setup history 0

combine-exchange_example :
    let whole : (Bytes × ℕ) × (Bytes × ℕ) × ℕ × Method String = (
      (10 ∷ [], 4000 % 2 ^ 16),
      (11 ∷ [], 80 % 2 ^ 16),
      1,
      record {
        args = some [];
        responses = some [];
        meta = record get_meta { processing_latency = latency_of 2000 9000 };
      },
    ) in
    (exchange (
        combine
          (new_witness request (request_half 1 [] get_meta) true)
          (response_half {Data = String} 1 []).witness
          false
          response)
      ≡ whole)
    × (exchange (
          combine
            (new_witness response (response_half 1 []) false)
            (request_half 1 [] get_meta).witness
            true
            request)
        ≡ whole)
combine-exchange_example =
    combine-exchange 1 [] [] get_meta request response refl refl refl refl refl refl refl

abbrev cached : Backend String
cached = record {
  objects = (0, new_witness request (request_half 1 [] get_meta) true) ∷ [];
  next_object = 1;
  pair_cache = (1, 0) ∷ [];
  jobs = [];
  reports = [];
}

flush_pair_cache-empties_example :
    let after = flush_pair_cache setup 5000 cached in
    (after.pair_cache ≡ []) × All (Flushed after.objects) cached.pair_cache
unfolding lookup new_witness
flush_pair_cache-empties_example =
    flush_pair_cache-empties setup 5000 cached (refl, tt)
      ((new_witness request (request_half 1 [] get_meta) true, refl, omega arith), tt)
