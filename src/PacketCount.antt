-- ===== src/PacketCount.antt =====
-- trace/collector.go: PacketCountCollector, which counts the packets by what they hold, with a
-- PacketCounter as its consumer, and tells once that a request and a response have been seen.
pub mod Totals
mod Tests
use postman_insights_agent.Prelude.{
  ℕ, ◌+◌, String, Bool, true, false, Option, none, some, List, [], ◌∷◌, ◌==◌, string_eq,
  if◌then◌else◌,
}
use postman_insights_agent.Counts.{PacketCounts, zero_counts}
use postman_insights_agent.Traffic.{
  Error, TlsClientHello, TlsServerHello, Content, http_request, http_response, tcp_packet,
  tcp_connection, tls_client_hello, tls_server_hello, tls_handshake, http2_preface, quic_handshake,
  dropped_bytes, other_content, Traffic, Collector,
}
use postman_insights_agent.Stats.{PacketCounter, update, has_request_and_response}

abbrev pub hostname_unavailable : String
hostname_unavailable = "(hosts without available names)"

-- `telemetry_once` is whether the sync.Once has run, `telemetry_sent` what its channel was sent.
pub record PacketCounting (S : Type 0) : Type 0 where
  pub next : S
  pub packet_counts : PacketCounter
  pub telemetry_once : Bool
  pub telemetry_sent : ℕ

-- The fields that all the literals of Process have.
abbrev counts_of : Traffic → PacketCounts
counts_of t = record zero_counts {
  net_interface = t.net_interface;
  src_port = t.src_port;
  dst_port = t.dst_port;
}

abbrev last_or : String → List String → String
last_or default [] = default
last_or default (x ∷ xs) = last_or x xs

-- `domain` is rest.Domain, `dogfood` the flag of that name, `sort_strings` sort.Strings.
module _ (domain : String) (dogfood : Bool) (sort_strings : List String → List String) where
  include_host_name : String → Bool
  include_host_name tls_name = if tls_name == domain then dogfood else true

  client_host : TlsClientHello → String
  client_host c = elim c.hostname [ none ↦ hostname_unavailable | some name ↦ name ]

  server_host : TlsServerHello → String
  server_host c = elim c.dns_names [
    | [] ↦ hostname_unavailable
    | name ∷ names ↦ last_or hostname_unavailable (sort_strings (name ∷ names))
  ]

  count_host_name : Traffic → String → Option PacketCounts
  unfolding include_host_name
  count_host_name t dst_host =
      if include_host_name dst_host
      then some (record (counts_of t) { dst_host = dst_host; tls_hello = 1 })
      else none

  -- What Update is called with, if it is called.
  pub delta : Traffic → Content → Option PacketCounts
  unfolding count_host_name client_host server_host
  delta t (http_request c) = some (record (counts_of t) { dst_host = c.host; http_requests = 1 })
  delta t (http_response c) = some (record (counts_of t) { http_responses = 1 })
  delta t (tls_client_hello c) = count_host_name t (client_host c)
  delta t (tls_server_hello c) = count_host_name t (server_host c)
  delta t (tcp_packet _) = none
  delta t (tcp_connection _) = none
  delta t (tls_handshake _) = none
  delta t http2_preface = some (record (counts_of t) { http2_prefaces = 1 })
  delta t quic_handshake = some (record (counts_of t) { quic_handshakes = 1 })
  delta t (dropped_bytes _) = some (record (counts_of t) { unparsed = 1 })
  delta t other_content = some (record (counts_of t) { unparsed = 1 })

  -- sort.Strings sorts the slice that the packet handed on shares.
  handed_on : Content → Content
  handed_on (tls_server_hello c) = elim c.dns_names [
    | [] ↦ tls_server_hello c
    | name ∷ names ↦ tls_server_hello (record c { dns_names = sort_strings (name ∷ names) })
  ]
  handed_on c = c

  module _ (add : PacketCounts → PacketCounts → PacketCounts) (next_collector : Collector) where
    send_success_telemetry :
        PacketCounting next_collector.State → PacketCounting next_collector.State
    send_success_telemetry pc =
        if pc.telemetry_once
        then pc
        else record pc { telemetry_once = true; telemetry_sent = pc.telemetry_sent + 1 }

    count_packet :
        PacketCounting next_collector.State → Traffic → PacketCounting next_collector.State
    count_packet pc t = elim (delta t t.content) [
      | none ↦ pc
      | some c ↦ record pc { packet_counts = update add pc.packet_counts c }
    ]

    pub process :
        PacketCounting next_collector.State
        → Traffic
        → PacketCounting next_collector.State × Option Error
    unfolding count_packet send_success_telemetry handed_on
    process pc t =
        let counted = count_packet pc t in
        let told =
          if has_request_and_response counted.packet_counts
          then send_success_telemetry counted
          else counted in
        let (s, e) =
          next_collector.process told.next (record t { content = handed_on t.content }) in
        (record told { next = s }, e)

    abbrev pub packet_count_collector : Collector
    packet_count_collector = record {
      State = PacketCounting next_collector.State;
      process = process;
      close = λ pc. let (s, e) = next_collector.close pc.next in (record pc { next = s }, e);
    }
