-- ===== src/Sampling/Tests.antt =====
-- trace/collector.go: an exchange and half of another one, half of the hashes taken.
use postman_insights_agent.Prelude.{
  ◌≡◌, List, [], ◌∷◌, if◌then◌else◌, ◌==◌, string_eq, nat_eq, none,
}
use postman_insights_agent.Traffic.{
  Content, http_request, http_response, Traffic, recorder, process_all,
}
use postman_insights_agent.RateLimit.Pairing.{requests, responses}
use postman_insights_agent.Sampling.{KeyLibrary, include_sample, sampling_collector}
use postman_insights_agent.Sampling.Exchanges.{process_all-exchange}

abbrev lib : KeyLibrary
lib = record {
  message_key = λ stream seq. if stream == 1 then "1.1" else "2.1";
  connection_key = λ id. "c";
  sum32 = λ key. if key == "1.1" then 10 else 90;
}

abbrev sent : Content → Traffic
sent c = record {
  net_interface = "eth0";
  src_ip = [];
  src_port = 4000;
  dst_ip = [];
  dst_port = 80;
  content = c;
  observation_time = 5;
  final_packet_time = 5;
}

abbrev packets : List Traffic
packets =
    sent (http_request (record { stream_id = 1; seq = 1; host = ""; url = none; header = [] }))
    ∷ sent (http_response (record { stream_id = 2; seq = 1; header = [] }))
    ∷ sent (http_response (record { stream_id = 1; seq = 1; header = [] }))
    ∷ []

process_all-exchange_example :
    let log = process_all (sampling_collector lib 50 recorder) [] packets in
    let taken = include_sample lib 50 (lib.message_key 1 1) in
    (requests (1, 1) log ≡ (if taken then requests (1, 1) packets else 0))
    × (responses (1, 1) log ≡ (if taken then responses (1, 1) packets else 0))
process_all-exchange_example = process_all-exchange lib 50 (1, 1) packets
