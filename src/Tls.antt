-- ===== src/Tls.antt =====
-- tls_conn_tracker/tls_conn_tracker.go: the two hello messages of a TLS handshake joined to one
-- record. The timeout of an entry only discards it, and may come at any moment.
pub mod Handshakes
mod Tests
use postman_insights_agent.Prelude.{
  ℕ, ◌*◌, ◌^◌, Bool, true, false, Option, none, some, List, [], ◌∷◌, nat_eq, if◌then◌else◌,
}
use postman_insights_agent.Prelude.Dict.{lookup, insert, delete}
use postman_insights_agent.Traffic.{
  Bytes, Error, TlsClientHello, TlsServerHello, TlsHandshakeMetadata, Content, tls_client_hello,
  tls_server_hello, tls_handshake, Traffic, Collector,
}

-- 30 * time.Second, in nanoseconds
abbrev pub connection_timeout : ℕ
connection_timeout = 30 * 10 ^ 9

-- What the tracker calls of akinet.TLSHandshakeMetadata. A method that fails may have changed its
-- receiver, so both are results.
pub record HandshakeLibrary : Type 0 where
  pub with_connection_id : ℕ → TlsHandshakeMetadata
  pub add_client_hello : TlsHandshakeMetadata → TlsClientHello → TlsHandshakeMetadata × Option Error
  pub add_server_hello : TlsHandshakeMetadata → TlsServerHello → TlsHandshakeMetadata × Option Error
  pub handshake_complete : TlsHandshakeMetadata → Bool

pub record ConnectionInfo : Type 0 where
  pub src_ip : Bytes
  pub src_port : ℕ
  pub dst_ip : Bytes
  pub dst_port : ℕ
  pub first_observation_time : ℕ
  pub last_observation_time : ℕ
  pub handshake_metadata : TlsHandshakeMetadata
  pub timeout : ℕ

pub record Tracker (S : Type 0) : Type 0 where
  pub next : S
  pub closed : Bool
  pub active_connections : List (ℕ × ConnectionInfo)

pub summary : ConnectionInfo → Traffic
summary info = record {
  net_interface = "";
  src_ip = info.src_ip;
  src_port = info.src_port;
  dst_ip = info.dst_ip;
  dst_port = info.dst_port;
  content = tls_handshake info.handshake_metadata;
  observation_time = info.first_observation_time;
  final_packet_time = info.last_observation_time;
}

pub data Event : Type 0 where
  arrives : Traffic → Event
  expires : ℕ → Event
  closes : Event

module _ (lib : HandshakeLibrary) (next_collector : Collector) where
  -- NewCollector
  pub new_tracker : next_collector.State → Tracker next_collector.State
  new_tracker s = record { next = s; closed = false; active_connections = [] }

  forward : Tracker next_collector.State → Traffic → Tracker next_collector.State × Option Error
  forward c t = let (s, e) = next_collector.process c.next t in (record c { next = s }, e)

  -- addConnection, up to the store into the map
  new_info : ℕ → Traffic → ConnectionInfo
  new_info id packet = record {
    src_ip = packet.src_ip;
    src_port = packet.src_port;
    dst_ip = packet.dst_ip;
    dst_port = packet.dst_port;
    first_observation_time = packet.observation_time;
    last_observation_time = packet.observation_time;
    handshake_metadata = lib.with_connection_id id;
    timeout = connection_timeout;
  }

  -- The entry itself: the map holds a pointer to it, which the callers store back.
  ensure_connection : Tracker next_collector.State → ℕ → Traffic → ConnectionInfo
  unfolding new_info
  ensure_connection c id packet = elim (lookup id c.active_connections) [
    | none ↦ new_info id packet
    | some info ↦ info
  ]

  flush_connection :
      Tracker next_collector.State → ℕ → Tracker next_collector.State × Bool × Option Error
  flush_connection c id = elim (lookup id c.active_connections) [
    | none ↦ (c, false, none)
    | some info ↦
        let (s, e) = next_collector.process c.next (summary info) in
        (record c { next = s; active_connections = delete id c.active_connections }, true, e)
  ]

  -- What follows the two calls of the library: its error is returned, a complete handshake flushed.
  after_hello :
      Tracker next_collector.State
      → ℕ
      → ConnectionInfo
      → TlsHandshakeMetadata × Option Error
      → Tracker next_collector.State × Option Error
  after_hello c id info added =
      let info' = record info { handshake_metadata = added.0 } in
      let c' = record c { active_connections = insert id info' c.active_connections } in
      elim added.1 [
        | some e ↦ (c', some e)
        | none ↦
            if lib.handshake_complete added.0
            then (let (flushed, _, e) = flush_connection c' id in (flushed, e))
            else (c', none)
      ]

  process_client_hello :
      Tracker next_collector.State
      → Traffic
      → TlsClientHello
      → Tracker next_collector.State × Option Error
  unfolding ensure_connection after_hello
  process_client_hello c packet tls =
      if c.closed
      then (c, none)
      else let info = ensure_connection c tls.connection_id packet in
        after_hello c tls.connection_id info (lib.add_client_hello info.handshake_metadata tls)

  process_server_hello :
      Tracker next_collector.State
      → Traffic
      → TlsServerHello
      → Tracker next_collector.State × Option Error
  unfolding ensure_connection after_hello
  process_server_hello c packet tls =
      if c.closed
      then (c, none)
      else let info = ensure_connection c tls.connection_id packet in
        after_hello c tls.connection_id info (lib.add_server_hello info.handshake_metadata tls)

  process_content :
      Tracker next_collector.State → Traffic → Content → Tracker next_collector.State × Option Error
  unfolding process_client_hello process_server_hello flush_connection forward
  process_content c packet (tls_client_hello tls) = process_client_hello c packet tls
  process_content c packet (tls_server_hello tls) = process_server_hello c packet tls
  process_content c packet _ = forward c packet

  pub process : Tracker next_collector.State → Traffic → Tracker next_collector.State × Option Error
  unfolding process_content
  process c packet = process_content c packet packet.content

  -- The timer's callback.
  pub expire : Tracker next_collector.State → ℕ → Tracker next_collector.State
  expire c id = record c { active_connections = delete id c.active_connections }

  pub close : Tracker next_collector.State → Tracker next_collector.State × Option Error
  close c =
      let (s, e) = next_collector.close c.next in
      (record { next = s; closed = true; active_connections = [] }, e)

  pub step : Tracker next_collector.State → Event → Tracker next_collector.State
  step c (arrives packet) = (process c packet).0
  step c (expires id) = expire c id
  step c closes = (close c).0

  pub run : Tracker next_collector.State → List Event → Tracker next_collector.State
  run c [] = c
  run c (e ∷ es) = run (step c e) es
