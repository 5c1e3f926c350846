-- ===== src/PacketCount/Totals.antt =====
-- trace/collector.go: what is counted of any packets, and when the success telemetry is sent.
use postman_insights_agent.Prelude.{
  ℕ, ◌+◌, ◌≡◌, refl, String, Bool, false, ◌&&◌, Option, none, some, List, [], ◌∷◌, arith, ltb,
  if◌then◌else◌, sum_by, option_cases,
}
use postman_insights_agent.Counts.{PacketCounts}
use postman_insights_agent.Traffic.{
  Content, http_request, http_response, tls_client_hello, tls_server_hello, Traffic, Collector,
  process_all,
}
use postman_insights_agent.Stats.{update, has_request_and_response, new_packet_counter}
use postman_insights_agent.PacketCount.{
  PacketCounting, delta, count_host_name, count_packet, send_success_telemetry, process,
  packet_count_collector,
}

-- What is relied on of PacketCounts.Add.
pub record AddsExchanges (add : PacketCounts → PacketCounts → PacketCounts) : Type 0 where
  pub adds_requests :
      (a b : PacketCounts) → (add a b).http_requests ≡ a.http_requests + b.http_requests
  pub adds_responses :
      (a b : PacketCounts) → (add a b).http_responses ≡ a.http_responses + b.http_responses

abbrev pub is_request : Content → ℕ
is_request (http_request _) = 1
is_request _ = 0

abbrev pub is_response : Content → ℕ
is_response (http_response _) = 1
is_response _ = 0

abbrev pub count_requests : List Traffic → ℕ
count_requests = sum_by λ t. is_request t.content

abbrev pub count_responses : List Traffic → ℕ
count_responses = sum_by λ t. is_response t.content

-- The counter of a collector that has not seen a packet, and what it hands on to.
abbrev pub fresh : {S : Type 0} → S → PacketCounting S
fresh s = record {
  next = s;
  packet_counts = new_packet_counter;
  telemetry_once = false;
  telemetry_sent = 0;
}

abbrev requests_of : Option PacketCounts → ℕ
requests_of none = 0
requests_of (some c) = c.http_requests

abbrev responses_of : Option PacketCounts → ℕ
responses_of none = 0
responses_of (some c) = c.http_responses

module _ (domain : String) (dogfood : Bool) (sort_strings : List String → List String) where
  host_name-exchanges :
      (t : Traffic) (host : String)
      → (requests_of (count_host_name domain dogfood sort_strings t host) ≡ 0)
        × (responses_of (count_host_name domain dogfood sort_strings t host) ≡ 0)
  unfolding count_host_name
  host_name-exchanges t host = (ground arith, ground arith)

  delta-exchanges :
      (t : Traffic) (c : Content)
      → (requests_of (delta domain dogfood sort_strings t c) ≡ is_request c)
        × (responses_of (delta domain dogfood sort_strings t c) ≡ is_response c)
  unfolding delta
  delta-exchanges t (tls_client_hello c) = host_name-exchanges t _
  delta-exchanges t (tls_server_hello c) = host_name-exchanges t _
  delta-exchanges t _ = (refl, refl)

  module _ (add : PacketCounts → PacketCounts → PacketCounts) (laws : AddsExchanges add)
      (next_collector : Collector) where
    -- The telemetry has been sent once if both have been seen, and not at all otherwise.
    record Told (pc : PacketCounting next_collector.State) : Type 0 where
      pub once : pc.telemetry_once ≡ has_request_and_response pc.packet_counts
      pub sent : pc.telemetry_sent ≡ (if pc.telemetry_once then 1 else 0)

    abbrev Gains :
        ℕ → ℕ → PacketCounting next_collector.State → PacketCounting next_collector.State → Type 0
    Gains m n pc pc' =
        (pc'.packet_counts.total.http_requests ≡ pc.packet_counts.total.http_requests + m)
        × (pc'.packet_counts.total.http_responses ≡ pc.packet_counts.total.http_responses + n)

    count_packet-Gains :
        (pc : PacketCounting next_collector.State) (t : Traffic)
        → let pc' = count_packet domain dogfood sort_strings add next_collector pc t in
          Gains (is_request t.content) (is_response t.content) pc pc'
          × (pc'.telemetry_once ≡ pc.telemetry_once)
          × (pc'.telemetry_sent ≡ pc.telemetry_sent)
    unfolding count_packet update
    count_packet-Gains pc t =
        let (m, n) = delta-exchanges t t.content in
        let total = pc.packet_counts.total in
        option_cases
          (λ (pc' : PacketCounting next_collector.State).
            Gains (is_request t.content) (is_response t.content) pc pc'
            × (pc'.telemetry_once ≡ pc.telemetry_once)
            × (pc'.telemetry_sent ≡ pc.telemetry_sent))
          (delta domain dogfood sort_strings t t.content) {n = pc}
          {s = λ c. record pc { packet_counts = update add pc.packet_counts c }}
          (λ nothing. ((ground (arith, m, nothing), ground (arith, n, nothing)), refl, refl))
          λ c found. (
            (
              ground (arith, laws.adds_requests total c, m, found),
              ground (arith, laws.adds_responses total c, n, found),
            ),
            refl,
            refl,
          )

    process-Told :
        (pc : PacketCounting next_collector.State) (t : Traffic)
        → Told pc
        → let pc' = (process domain dogfood sort_strings add next_collector pc t).0 in
          Told pc' × Gains (is_request t.content) (is_response t.content) pc pc'
    unfolding process send_success_telemetry has_request_and_response
    process-Told pc t h =
        let ((m, n), once, sent) = count_packet-Gains pc t in
        (
          record {
            once = ground (arith, h.once, once, m, n);
            sent = ground (arith, h.sent, sent, once);
          },
          (ground (arith, m), ground (arith, n)),
        )

    process_all-Told :
        (pc : PacketCounting next_collector.State) (ts : List Traffic)
        → Told pc
        → let pc' =
            process_all
              (packet_count_collector domain dogfood sort_strings add next_collector)
              pc
              ts in
          Told pc' × Gains (count_requests ts) (count_responses ts) pc pc'
    unfolding process_all
    process_all-Told pc [] h = (h, (omega arith, omega arith))
    process_all-Told pc (t ∷ ts) h =
        let (told, (m, n)) = process-Told pc t h in
        let (all_told, (ms, ns)) =
          process_all-Told (process domain dogfood sort_strings add next_collector pc t).0 ts
            told in
        (all_told, (omega (arith, m, ms), omega (arith, n, ns)))

    -- If Add sums the counts of requests and responses, then after any packets a new counter's
    -- total is of as many requests and responses as there were, and the success telemetry has been
    -- sent exactly once if there was at least one of each, and not at all otherwise.
    pub process_all-telemetry :
        (s : next_collector.State) (ts : List Traffic)
        → let pc =
            process_all
              (packet_count_collector domain dogfood sort_strings add next_collector)
              (fresh s)
              ts in
          (pc.packet_counts.total.http_requests ≡ count_requests ts)
          × (pc.packet_counts.total.http_responses ≡ count_responses ts)
          × (pc.telemetry_sent
              ≡ (if ltb 0 (count_requests ts) && ltb 0 (count_responses ts) then 1 else 0))
    unfolding new_packet_counter has_request_and_response
    process_all-telemetry s ts =
        let (told, (m, n)) = process_all-Told (fresh s) ts (record { once = refl; sent = refl }) in
        (omega (arith, m), omega (arith, n), ground (arith, told.once, told.sent, m, n))
