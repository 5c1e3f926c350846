-- ===== src/Traffic.antt =====
-- What the capture hands on (akinet.ParsedNetworkTraffic, as the collectors read it), and the
-- interface of the collectors that it passes through (trace/collector.go, trace/tee.go).
-- Times are nanoseconds after Go's zero time, addresses are byte strings, identifiers are numbers.
use postman_insights_agent.Prelude.{ℕ, String, Bool, Option, none, some, List, [], ◌∷◌}

abbrev pub Bytes : Type 0
Bytes = List ℕ

-- A Go `error` that is not nil, by its text.
abbrev pub Error : Type 0
Error = String

abbrev pub Header : Type 0
Header = List (String × List String)

pub data Initiator : Type 0 where
  unknown_initiator source_initiator dest_initiator : Initiator

pub data EndState : Type 0 where
  connection_open connection_closed connection_reset : EndState

pub record Url : Type 0 where
  pub url_host : String
  pub path : String

pub record HttpRequest : Type 0 where
  pub stream_id : ℕ
  pub seq : ℕ
  pub host : String
  pub url : Option Url
  pub header : Header

pub record HttpResponse : Type 0 where
  pub stream_id : ℕ
  pub seq : ℕ
  pub header : Header

pub record TcpPacketMetadata : Type 0 where
  pub connection_id : ℕ
  pub syn : Bool
  pub ack : Bool
  pub fin : Bool
  pub rst : Bool
  pub payload_length_bytes : ℕ

pub record TcpConnectionMetadata : Type 0 where
  pub connection_id : ℕ
  pub initiator : Initiator
  pub end_state : EndState

-- `body` is what the agent does not read itself.
pub record TlsClientHello : Type 0 where
  pub connection_id : ℕ
  pub hostname : Option String
  pub body : Bytes

pub record TlsServerHello : Type 0 where
  pub connection_id : ℕ
  pub dns_names : List String
  pub body : Bytes

-- `unexported` is the library's own note of the messages that it has seen.
pub record TlsHandshakeMetadata : Type 0 where
  pub connection_id : ℕ
  pub version : ℕ
  pub sni_hostname : Option String
  pub supported_protocols : List String
  pub selected_protocol : Option String
  pub subject_alternative_names : List String
  pub unexported : List Bool

-- The dynamic types that the collectors' switches tell apart; `other_content` is any other.
pub data Content : Type 0 where
  http_request : HttpRequest → Content
  http_response : HttpResponse → Content
  tcp_packet : TcpPacketMetadata → Content
  tcp_connection : TcpConnectionMetadata → Content
  tls_client_hello : TlsClientHello → Content
  tls_server_hello : TlsServerHello → Content
  tls_handshake : TlsHandshakeMetadata → Content
  http2_preface : Content
  quic_handshake : Content
  dropped_bytes : ℕ → Content
  other_content : Content

pub record Traffic : Type 0 where
  pub net_interface : String
  pub src_ip : Bytes
  pub src_port : ℕ
  pub dst_ip : Bytes
  pub dst_port : ℕ
  pub content : Content
  pub observation_time : ℕ
  pub final_packet_time : ℕ

-- `trace.Collector`: an object with its own state; a nil error is `none`.
pub record Collector : Type 1 where
  pub State : Type 0
  pub process : State → Traffic → State × Option Error
  pub close : State → State × Option Error

-- Keeps what it is handed, the latest first: an observer for statements about the others.
abbrev pub recorder : Collector
recorder = record {
  State = List Traffic;
  process = λ log t. (t ∷ log, none);
  close = λ log. (log, none);
}

-- Hands a list of packets to a collector, one after the other, and collects the errors.
unfoldable pub process_all : (col : Collector) → col.State → List Traffic → col.State
process_all col s [] = s
process_all col s (t ∷ ts) = process_all col (col.process s t).0 ts

abbrev first_error : Option Error → Option Error → Option Error
first_error none e = e
first_error (some e) _ = some e

-- trace.TeeCollector
abbrev pub tee_collector : Collector → Collector → Collector
tee_collector dst1 dst2 = record {
  State = dst1.State × dst2.State;
  process = λ s t. (
    ((dst1.process s.0 t).0, (dst2.process s.1 t).0),
    first_error (dst1.process s.0 t).1 (dst2.process s.1 t).1,
  );
  close = λ s.
      (((dst1.close s.0).0, (dst2.close s.1).0), first_error (dst1.close s.0).1 (dst2.close s.1).1);
}

-- trace.dummyCollector
abbrev pub dummy_collector : Collector
dummy_collector = record { State = Unit; process = λ s _. (s, none); close = λ s. (s, none) }
