-- ===== src/Tcp.antt =====
-- tcp_conn_tracker/tcp_conn_tracker.go: TCP packet metadata summed up to one record a connection.
-- The lock is held by each method, so a method is one step; a timer is its remaining time, and its
-- firing is a call of `flush_connection` by the environment, which may come at any moment.
pub mod Inference
pub mod Invariant
pub mod Ledger
mod Tests
use postman_insights_agent.Prelude.{
  ℕ, String, ◌≡◌, Bool, true, false, not, ◌&&◌, ◌||◌, Option, none, some, List, [], ◌∷◌, ◌*◌, ◌^◌,
  ltb, ◌==◌, nat_eq, if◌then◌else◌, ◌++◌,
}
use postman_insights_agent.Prelude.Dict.{lookup, insert, delete}
use postman_insights_agent.Traffic.{
  Bytes, Error, Initiator, unknown_initiator, source_initiator, dest_initiator, EndState,
  connection_open, connection_closed, connection_reset, TcpPacketMetadata, TcpConnectionMetadata,
  Content, tcp_packet, tcp_connection, Traffic, Collector,
}

-- 30 * time.Second, in nanoseconds
abbrev pub connection_timeout : ℕ
connection_timeout = 30 * 10 ^ 9

-- time.Timer: what is left until it fires.
pub data Timer : Type 0 where
  stopped : Timer
  running : ℕ → Timer

pub record ConnectionInfo : Type 0 where
  pub src_ip : Bytes
  pub src_port : ℕ
  pub dst_ip : Bytes
  pub dst_port : ℕ
  pub first_observation_time : ℕ
  pub last_observation_time : ℕ
  pub tcp_metadata : TcpConnectionMetadata
  pub timeout : Timer

abbrev is_unknown : Initiator → Bool
is_unknown unknown_initiator = true
is_unknown _ = false

abbrev is_open : EndState → Bool
is_open connection_open = true
is_open _ = false

-- What is handed downstream of a connection.
pub summary : ConnectionInfo → Traffic
summary info = record {
  net_interface = "";
  src_ip = info.src_ip;
  src_port = info.src_port;
  dst_ip = info.dst_ip;
  dst_port = info.dst_port;
  content = tcp_connection info.tcp_metadata;
  observation_time = info.first_observation_time;
  final_packet_time = info.last_observation_time;
}

-- The packets of a closed connection that the reassembly takes for a new one.
pub is_spurious : TcpPacketMetadata → Bool
is_spurious tcp =
    (tcp.payload_length_bytes == 0 && tcp.ack && not (tcp.fin || tcp.rst || tcp.syn)) || tcp.rst

-- addConnection, up to the store into the map
pub new_info : Traffic → TcpPacketMetadata → ConnectionInfo
new_info packet metadata = record {
  src_ip = packet.src_ip;
  src_port = packet.src_port;
  dst_ip = packet.dst_ip;
  dst_port = packet.dst_port;
  first_observation_time = packet.observation_time;
  last_observation_time = packet.observation_time;
  tcp_metadata = record {
    connection_id = metadata.connection_id;
    initiator = unknown_initiator;
    end_state = connection_open;
  };
  timeout = running connection_timeout;
}

-- What can happen to a tracker: a packet, a timer that fires, the end of the capture.
pub data Event : Type 0 where
  arrives : Traffic → Event
  expires : ℕ → Event
  closes : Event

-- The state's `next` is the downstream collector's.
pub record Tracker (S : Type 0) : Type 0 where
  pub next : S
  pub closed : Bool
  pub active_connections : List (ℕ × ConnectionInfo)

observe_end : EndState → TcpPacketMetadata → EndState
observe_end state metadata =
    let finished = if metadata.fin && is_open state then connection_closed else state in
    if metadata.rst then connection_reset else finished

-- `ip_equal` is net.IP.Equal.
module _ (ip_equal : Bytes → Bytes → Bool) where
  pub from_source : ConnectionInfo → Traffic → Bool
  from_source info packet = ip_equal info.src_ip packet.src_ip && info.src_port == packet.src_port

  infer_initiator : ConnectionInfo → Traffic → TcpPacketMetadata → Initiator
  unfolding from_source
  infer_initiator info packet metadata =
      if is_unknown info.tcp_metadata.initiator && metadata.syn
      then if metadata.ack
        then if from_source info packet then dest_initiator else source_initiator
        else if from_source info packet
        then source_initiator
        else dest_initiator
      else info.tcp_metadata.initiator

  pub augment_with : ConnectionInfo → Traffic → TcpPacketMetadata → ConnectionInfo
  unfolding infer_initiator observe_end
  augment_with info packet metadata = record info {
    first_observation_time =
        if ltb packet.observation_time info.first_observation_time
        then packet.observation_time
        else info.first_observation_time;
    last_observation_time =
        if ltb info.last_observation_time packet.observation_time
        then packet.observation_time
        else info.last_observation_time;
    tcp_metadata = record {
      connection_id = info.tcp_metadata.connection_id;
      initiator = infer_initiator info packet metadata;
      end_state = observe_end info.tcp_metadata.end_state metadata;
    };
    timeout = running connection_timeout;
  }

-- A method that hands its argument on.
pub forward :
    (next_collector : Collector)
    → Tracker next_collector.State
    → Traffic
    → Tracker next_collector.State × Option Error
forward next_collector c t =
    let (s, e) = next_collector.process c.next t in (record c { next = s }, e)

-- `visit` is the order in which Go ranges over the map, and `sampled` the text of a non-empty
-- sampled_err.Errors.
module _ (ip_equal : Bytes → Bytes → Bool) (next_collector : Collector)
    (visit : List (ℕ × ConnectionInfo) → List (ℕ × ConnectionInfo))
    (sampled : List Error → Error) where
  -- NewCollector
  pub new_tracker : next_collector.State → Tracker next_collector.State
  new_tracker s = record { next = s; closed = false; active_connections = [] }

  abbrev pub State : Type 0
  State = Tracker next_collector.State

  process_tcp : State → Traffic → TcpPacketMetadata → State × Option Error
  unfolding forward
  process_tcp c packet tcp =
      if c.closed then (c, none) else elim (lookup tcp.connection_id c.active_connections) [
        | none ↦ if is_spurious tcp then (c, none) else (
          record c {
            active_connections =
                insert tcp.connection_id (new_info packet tcp) c.active_connections;
          },
          none,
        )
        | some info ↦
            forward next_collector
              (record c {
                active_connections =
                    insert tcp.connection_id (augment_with ip_equal info packet tcp)
                      c.active_connections;
              })
              packet
      ]

  process_content : State → Traffic → Content → State × Option Error
  unfolding process_tcp forward
  process_content c packet (tcp_packet tcp) = process_tcp c packet tcp
  process_content c packet _ = forward next_collector c packet

  pub process : State → Traffic → State × Option Error
  unfolding process_content
  process c packet = process_content c packet packet.content

  -- The timer's callback. The Boolean is whether the connection was there.
  pub flush_connection : State → ℕ → State × Bool × Option Error
  flush_connection c connection_id = elim (lookup connection_id c.active_connections) [
    | none ↦ (c, false, none)
    | some info ↦
        let (s, e) = next_collector.process c.next (summary info) in
        (
          record c { next = s; active_connections = delete connection_id c.active_connections },
          true,
          e,
        )
  ]

  abbrev add_error : List Error → Option Error → List Error
  add_error errs none = errs
  add_error errs (some e) = errs ++ e ∷ []

  -- The loop of `close`.
  flush_all :
      next_collector.State
      → List Error
      → List (ℕ × ConnectionInfo)
      → next_collector.State × List Error
  flush_all s errs [] = (s, errs)
  flush_all s errs ((_, info) ∷ rest) =
      let (s', e) = next_collector.process s (summary info) in flush_all s' (add_error errs e) rest

  abbrev report : List Error → Option Error
  report [] = none
  report (e ∷ es) = some (sampled (e ∷ es))

  pub close : State → State × Option Error
  unfolding flush_all
  close c =
      let (s, errs) = flush_all c.next [] (visit c.active_connections) in
      let (s', e) = next_collector.close s in
      (record { next = s'; closed = true; active_connections = [] }, report (add_error errs e))

  pub step : State → Event → State
  step c (arrives packet) = (process c packet).0
  step c (expires connection_id) = (flush_connection c connection_id).0
  step c closes = (close c).0

  pub run : State → List Event → State
  run c [] = c
  run c (e ∷ es) = run (step c e) es
