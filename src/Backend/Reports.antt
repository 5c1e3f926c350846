-- ===== src/Backend/Reports.antt =====
-- trace/backend_collector.go and trace/report_buffer.go: the reports that go to the upload batch.
use postman_insights_agent.Prelude.{ℕ, ◌%◌, ◌^◌, String, Bool, true, false, Option, List, nat_eq}
use postman_insights_agent.Traffic.{
  Bytes, Initiator, unknown_initiator, dest_initiator, EndState, TcpConnectionMetadata,
  TlsHandshakeMetadata, Traffic,
}
use postman_insights_agent.Witnesses.{WitnessWithInfo}

pub record TcpReport : Type 0 where
  pub id : ℕ
  pub src_addr : Bytes
  pub src_port : ℕ
  pub dest_addr : Bytes
  pub dest_port : ℕ
  pub first_observed : ℕ
  pub last_observed : ℕ
  pub initiator_known : Bool
  pub end_state : EndState

pub record TlsReport : Type 0 where
  pub id : ℕ
  pub version : ℕ
  pub sni_hostname : Option String
  pub supported_protocols : List String
  pub selected_protocol : Option String
  pub subject_alternative_names : List String

-- rawReport: a witness by the number of its object, and as it is when it is added.
pub data RawReport (Data : Type 0) : Type 0 where
  witness_report : ℕ → WitnessWithInfo Data → RawReport Data
  tcp_report : TcpReport → RawReport Data
  tls_report : TlsReport → RawReport Data

abbrev initiator_known : Initiator → Bool
initiator_known unknown_initiator = false
initiator_known _ = true

-- The report of processTCPConnection.
pub tcp_connection_report : Traffic → TcpConnectionMetadata → TcpReport
tcp_connection_report packet tcp =
    let forward : TcpReport = record {
      id = tcp.connection_id;
      src_addr = packet.src_ip;
      src_port = packet.src_port % 2 ^ 16;
      dest_addr = packet.dst_ip;
      dest_port = packet.dst_port % 2 ^ 16;
      first_observed = packet.observation_time;
      last_observed = packet.final_packet_time;
      initiator_known = initiator_known tcp.initiator;
      end_state = tcp.end_state;
    } in
    elim tcp.initiator [
      | dest_initiator ↦ record forward {
        src_addr = packet.dst_ip;
        src_port = packet.dst_port % 2 ^ 16;
        dest_addr = packet.src_ip;
        dest_port = packet.src_port % 2 ^ 16;
      }
      | _ ↦ forward
    ]

-- The report of processTLSHandshake.
pub tls_handshake_report : TlsHandshakeMetadata → TlsReport
tls_handshake_report tls = record {
  id = tls.connection_id;
  version = tls.version;
  sni_hostname = tls.sni_hostname;
  supported_protocols = tls.supported_protocols;
  selected_protocol = tls.selected_protocol;
  subject_alternative_names = tls.subject_alternative_names;
}
