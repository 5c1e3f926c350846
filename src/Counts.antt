-- ===== src/Counts.antt =====
-- client_telemetry.PacketCounts, by the fields that the agent reads and writes. Adding two of them
-- is the library's, and a parameter where it is needed.
use postman_insights_agent.Prelude.{ℕ, String}

pub record PacketCounts : Type 0 where
  pub net_interface : String
  pub src_host : String
  pub dst_host : String
  pub src_port : ℕ
  pub dst_port : ℕ
  pub tcp_packets : ℕ
  pub http_requests : ℕ
  pub http_responses : ℕ
  pub tls_hello : ℕ
  pub http2_prefaces : ℕ
  pub quic_handshakes : ℕ
  pub unparsed : ℕ
  pub http_requests_rate_limited : ℕ
  pub oversized_witnesses : ℕ

-- Go's zero value.
abbrev pub zero_counts : PacketCounts
zero_counts = record {
  net_interface = "";
  src_host = "";
  dst_host = "";
  src_port = 0;
  dst_port = 0;
  tcp_packets = 0;
  http_requests = 0;
  http_responses = 0;
  tls_hello = 0;
  http2_prefaces = 0;
  quic_handshakes = 0;
  unparsed = 0;
  http_requests_rate_limited = 0;
  oversized_witnesses = 0;
}
