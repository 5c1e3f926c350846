-- ===== src/TcpStream.antt =====
-- pcap/stream.go: tcpStream, the pair of flows of a TCP connection. A direction of the reassembly is a
-- Boolean. The counters of a flow are here what the flow adds to those of the package.
pub mod Directions
pub mod Histories
mod Tests
use postman_insights_agent.Prelude.{
  ℕ, Bool, true, false, not, Option, none, some, List, [], ◌∷◌, ◌++◌, if◌then◌else◌,
}
use postman_insights_agent.Traffic.{TcpPacketMetadata}
use postman_insights_agent.TcpFlow.{
  ParserLibrary, ScatterGather, Counters, Result, ok, nil_dereference, out_of_fuel, TcpFlow,
  new_tcp_flow, reassembled, reassembly_complete,
}

-- The ends of a flow: gopacket's flows of the network and of the transport layer.
pub record Endpoints : Type 0 where
  pub src_ip : ℕ
  pub src_port : ℕ
  pub dst_ip : ℕ
  pub dst_port : ℕ

-- The parts of layers.TCP that are read.
pub record TcpLayer : Type 0 where
  pub src_port : ℕ
  pub dst_port : ℕ
  pub syn : Bool
  pub ack : Bool
  pub fin : Bool
  pub rst : Bool
  pub payload_length : ℕ

pub reverse_ends : Endpoints → Endpoints
reverse_ends e = record {
  src_ip = e.dst_ip;
  src_port = e.dst_port;
  dst_ip = e.src_ip;
  dst_port = e.src_port;
}

-- The metadata of a packet, as they are sent.
pub record PacketTraffic : Type 0 where
  pub ends : Endpoints
  pub packet : TcpPacketMetadata
  pub observation_time : ℕ

-- What the clock shows to reassemblyComplete of one flow: to toPNT, and to its own two calls.
pub record ClockReadings : Type 0 where
  pub clock : ℕ → ℕ
  pub first : ℕ
  pub last : ℕ

module _ (lib : ParserLibrary) where
  -- A flow with its ends.
  pub record Flow : Type 0 where
    pub ends : Endpoints
    pub tcp_flow : TcpFlow lib

  -- The map of flows has both directions or, before the first packet, is nil.
  pub record Flows : Type 0 where
    pub forward : Flow
    pub backward : Flow

  -- tcpStream, with the metadata that it has sent. `src_ip` and `dst_ip` are those of netFlow.
  pub record TcpStream : Type 0 where
    pub bidi_id : ℕ
    pub src_ip : ℕ
    pub dst_ip : ℕ
    pub flows : Option Flows
    pub packets : List PacketTraffic

  pub new_tcp_stream : (bidi_id src_ip dst_ip : ℕ) → TcpStream
  new_tcp_stream bidi_id src_ip dst_ip = record {
    bidi_id = bidi_id;
    src_ip = src_ip;
    dst_ip = dst_ip;
    flows = none;
    packets = [];
  }

  abbrev pub no_counts : Counters
  no_counts = record {
    nil_assembler_context = 0;
    nil_assembler_context_after_parse = 0;
    bad_assembler_context_type = 0;
    zero_value_packet_timestamp = 0;
    last_packet_before_first_packet = 0;
  }

  pub ends_of : TcpStream → TcpLayer → Endpoints
  ends_of s tcp = record {
    src_ip = s.src_ip;
    src_port = tcp.src_port;
    dst_ip = s.dst_ip;
    dst_port = tcp.dst_port;
  }

  -- The flows that the first packet makes, given its direction.
  pub first_flows : TcpStream → TcpLayer → Bool → Flows
  unfolding ends_of reverse_ends
  first_flows s tcp dir =
      let s1 : Flow = record { ends = ends_of s tcp; tcp_flow = new_tcp_flow lib no_counts } in
      let s2 : Flow = record {
        ends = reverse_ends (ends_of s tcp);
        tcp_flow = new_tcp_flow lib no_counts;
      } in
      if dir then record { forward = s1; backward = s2 } else record { forward = s2; backward = s1 }

  -- Accept, with the capture time of the packet. It accepts every packet.
  pub accept_packet : TcpLayer → Bool → ℕ → TcpStream → TcpStream
  unfolding first_flows ends_of
  accept_packet tcp dir timestamp s = record s {
    flows = elim s.flows [ none ↦ some (first_flows s tcp dir) | some flows ↦ some flows ];
    packets =
        s.packets
        ++ record {
          ends = ends_of s tcp;
          packet = record {
            connection_id = s.bidi_id;
            syn = tcp.syn;
            ack = tcp.ack;
            fin = tcp.fin;
            rst = tcp.rst;
            payload_length_bytes = tcp.payload_length;
          };
          observation_time = timestamp;
        }
          ∷ [];
  }

  -- A flow after a call of one of its methods.
  pub update_flow :
      Flow → (TcpFlow lib → Result (TcpFlow lib)) → (Flow → Result TcpStream) → Result TcpStream
  update_flow flow method next = elim (method flow.tcp_flow) [
    | ok f ↦ next (record flow { tcp_flow = f })
    | nil_dereference ↦ nil_dereference
    | out_of_fuel ↦ out_of_fuel
  ]

  -- ReassembledSG
  pub reassembled_sg : (ℕ → ℕ) → Bool → ScatterGather → Option ℕ → TcpStream → Result TcpStream
  unfolding update_flow
  reassembled_sg clock dir sg ac s = elim s.flows [
    | none ↦ ok s
    | some flows ↦
        if dir
        then update_flow flows.forward (reassembled lib clock sg ac)
            (λ f. ok (record s { flows = some (record flows { forward = f }) }))
        else update_flow flows.backward (reassembled lib clock sg ac)
            (λ f. ok (record s { flows = some (record flows { backward = f }) }))
  ]

  abbrev pub complete_flow : ClockReadings → TcpFlow lib → Result (TcpFlow lib)
  complete_flow c = reassembly_complete lib c.clock c.first c.last

  -- ReassemblyComplete. The flows share nothing but the channel, so that their order is left open.
  pub stream_complete : ClockReadings → ClockReadings → TcpStream → Result TcpStream
  unfolding update_flow
  stream_complete c c' s = elim s.flows [
    | none ↦ ok s
    | some flows ↦ update_flow flows.forward (complete_flow c) (λ f.
        update_flow flows.backward (complete_flow c')
          (λ b. ok (record s { flows = some (record { forward = f; backward = b }) })))
  ]

  -- The calls of the assembler.
  pub data Event : Type 0 where
    packet : TcpLayer → Bool → ℕ → Event
    segment : (ℕ → ℕ) → Bool → ScatterGather → Option ℕ → Event
    complete : ClockReadings → ClockReadings → Event

  pub step : TcpStream → Event → Result TcpStream
  unfolding accept_packet reassembled_sg stream_complete
  step s (packet tcp dir timestamp) = ok (accept_packet tcp dir timestamp s)
  step s (segment clock dir sg ac) = reassembled_sg clock dir sg ac s
  step s (complete c c') = stream_complete c c' s

  pub run : TcpStream → List Event → Result TcpStream
  run s [] = ok s
  run s (e ∷ es) = elim (step s e) [
    | ok s' ↦ run s' es
    | nil_dereference ↦ nil_dereference
    | out_of_fuel ↦ out_of_fuel
  ]
