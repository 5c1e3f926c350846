-- ===== src/PacketCount/Tests.antt =====
-- trace/collector.go: two requests and a response, and what the library's Add is taken to be.
use postman_insights_agent.Prelude.{String, refl, ◌+◌, none, List, [], ◌∷◌}
use postman_insights_agent.Counts.{PacketCounts}
use postman_insights_agent.Traffic.{Content, http_request, http_response, Traffic}
use postman_insights_agent.PacketCount.Totals.{AddsExchanges}

abbrev add : PacketCounts → PacketCounts → PacketCounts
add a b = record a {
  http_requests = a.http_requests + b.http_requests;
  http_responses = a.http_responses + b.http_responses;
}

add-AddsExchanges : AddsExchanges add
add-AddsExchanges = record { adds_requests = λ a b. refl; adds_responses = λ a b. refl }

abbrev sent : Content → Traffic
sent c = record {
  net_interface = "eth0";
  src_ip = [];
  src_port = 4000;
  dst_ip = [];
  dst_port = 80;
  content = c;
  observation_time = 5;
  final_packet_time = 5;
}

abbrev packets : List Traffic
packets =
    sent (http_request (record { stream_id = 1; seq = 1; host = "a"; url = none; header = [] }))
    ∷ sent (http_response (record { stream_id = 1; seq = 1; header = [] }))
    ∷ sent (http_request (record { stream_id = 1; seq = 2; host = "a"; url = none; header = [] }))
    ∷ []

abbrev sort_strings : List String → List String
sort_strings names = names
