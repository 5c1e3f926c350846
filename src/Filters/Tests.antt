-- ===== src/Filters/Tests.antt =====
-- trace/filters.go: a filter by host, on two requests and their responses.
use postman_insights_agent.Prelude.{ℕ, String, ◌≡◌, none, List, [], ◌∷◌, ◌+◌, ◌*◌, ◌==◌, string_eq}
use postman_insights_agent.Traffic.{http_request, http_response, Traffic, recorder, process_all}
use postman_insights_agent.Filters.{Matcher, host_filter, request_filter}
use postman_insights_agent.Filters.Dropping.{recorded, request_filter-recorded}

abbrev to_witness_id : ℕ → ℕ → ℕ
to_witness_id stream seq = 1000 * stream + seq

abbrev matchers : List Matcher
matchers = (λ host. host == "metrics.local") ∷ []

abbrev request : ℕ → String → Traffic
request seq host = record {
  net_interface = "eth0";
  src_ip = [];
  src_port = 4000;
  dst_ip = [];
  dst_port = 80;
  content =
      http_request (record { stream_id = 1; seq = seq; host = host; url = none; header = [] });
  observation_time = 5;
  final_packet_time = 5;
}

abbrev response : ℕ → Traffic
response seq = record (request seq "") {
  content = http_response (record { stream_id = 1; seq = seq; header = [] });
}

abbrev packets : List Traffic
packets =
    request 1 "metrics.local" ∷ request 2 "shop.local" ∷ response 2 ∷ response 1 ∷ response 3 ∷ []

request_filter-recorded_example :
    (process_all
      (request_filter to_witness_id (host_filter matchers) recorder)
      (record { next = []; filtered_ids = [] })
      packets).next
    ≡ recorded to_witness_id (host_filter matchers) [] [] packets
request_filter-recorded_example =
    request_filter-recorded to_witness_id (host_filter matchers) packets
