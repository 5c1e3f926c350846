-- ===== src/TcpFlow.antt =====
-- pcap/stream.go: the flow of bytes in one direction of a TCP connection, from the reassembly to the
-- parsers. The parsers (akinet) and the reassembly (gopacket) are libraries. Times are nanoseconds
-- after Go's zero time.
pub mod Cases
pub mod Histories
pub mod Recursion
pub mod Times
mod Tests
use postman_insights_agent.Prelude.{
  ℕ, zero, suc, ◌+◌, ◌-◌, ◌≤◌, ◌<◌, ◌≡◌, Bool, true, false, ◌||◌, Option, none, some, List, [], ◌∷◌,
  ◌++◌, length, drop, ltb, nat_beq, if◌then◌else◌,
}
use postman_insights_agent.Traffic.{Bytes}

-- assemblerCtxWithSeq
pub record Context : Type 0 where
  pub timestamp : ℕ
  pub seq : ℕ
  pub ack : ℕ

-- What ScatterGather.AssemblerContext returns: nil, a context of this package, or another one.
pub data SgContext : Type 0 where
  nil_context other_context : SgContext
  with_seq : Context → SgContext

-- reassembly.ScatterGather: the bytes that Fetch gives of all that are available, whether the stream
-- ends, and the capture time and the context of the packet at an offset.
pub record ScatterGather : Type 0 where
  pub bytes : Bytes
  pub is_end : Bool
  pub timestamp_at : ℕ → ℕ
  pub context_at : ℕ → SgContext

-- The outcome of a parser: an error, with the number of bytes consumed; content, with the bytes that
-- are unused; or a parser that waits for more.
pub data Outcome (Parser Content : Type 0) : Type 0 where
  parse_error : ℕ → Outcome Parser Content
  parsed : Content → Bytes → Outcome Parser Content
  unfinished : Parser → Outcome Parser Content

-- TCPParserFactorySelector.Select
pub data Decision (Factory : Type 0) : Type 0 where
  need_more_data reject unsupported : Decision Factory
  accept : Factory → Decision Factory

-- akinet's parsers. Unused bytes are of the latest call, and a new parser uses some of the first. No
-- more bytes are discarded than there are.
pub record ParserLibrary : Type 1 where
  pub Parser : Type 0
  pub Factory : Type 0
  pub Content : Type 0
  pub dropped_bytes : ℕ → Content
  pub select : Bytes → Bool → Decision Factory × ℕ
  pub create_parser : Factory → ℕ → ℕ → Parser
  pub parse : Parser → Bytes → Bool → Outcome Parser Content
  pub unused_latest :
      (p : Parser) (d : Bytes) (e : Bool) {c : Content} {u : Bytes}
      → parse p d e ≡ parsed c u
      → length u ≤ length d
  pub new_uses :
      (f : Factory) (s a : ℕ) (d : Bytes) (e : Bool) {c : Content} {u : Bytes}
      → parse (create_parser f s a) d e ≡ parsed c u
      → 0 < length u
      → length u < length d

-- The package's counters.
pub record Counters : Type 0 where
  pub nil_assembler_context : ℕ
  pub nil_assembler_context_after_parse : ℕ
  pub bad_assembler_context_type : ℕ
  pub zero_value_packet_timestamp : ℕ
  pub last_packet_before_first_packet : ℕ

pub data Result (A : Type 0) : Type 0 where
  ok : A → Result A
  nil_dereference : Result A
  out_of_fuel : Result A

module _ (lib : ParserLibrary) where
  open lib use {Parser, Factory, Content, dropped_bytes, select, create_parser, parse}

  -- The parts of akinet.ParsedNetworkTraffic that a flow does not hold for all.
  pub record Traffic : Type 0 where
    pub content : Content
    pub observation_time : ℕ
    pub final_packet_time : ℕ

  -- tcpFlow, with what it has sent on its channel, the counters, and the offset that KeepFrom was last
  -- called with.
  pub record TcpFlow : Type 0 where
    pub current_parser : Option Parser
    pub current_parser_ctx : Option Context
    pub unused_accept_buf : Bytes
    pub sent : List Traffic
    pub counters : Counters
    pub kept_from : Option ℕ

  pub new_tcp_flow : Counters → TcpFlow
  new_tcp_flow counters = record {
    current_parser = none;
    current_parser_ctx = none;
    unused_accept_buf = [];
    sent = [];
    counters = counters;
    kept_from = none;
  }

  -- toPNT and the send on outChan; `now` is what the clock shows.
  pub send_pnt : ℕ → ℕ → ℕ → Content → TcpFlow → TcpFlow
  send_pnt now first last content f =
      let zero_time = nat_beq first 0 || nat_beq last 0 in
      let first' = if nat_beq first 0 then now else first in
      let last' = if nat_beq last 0 then now else last in
      let early = ltb last' first' in
      record f {
        sent =
            f.sent
            ++ record {
              content = content;
              observation_time = first';
              final_packet_time = if early then first' else last';
            }
              ∷ [];
        counters = record f.counters {
          zero_value_packet_timestamp =
              if zero_time
              then f.counters.zero_value_packet_timestamp + 1
              else f.counters.zero_value_packet_timestamp;
          last_packet_before_first_packet =
              if early
              then f.counters.last_packet_before_first_packet + 1
              else f.counters.last_packet_before_first_packet;
        };
      }

  pub handle_unparseable : ℕ → ℕ → ℕ → TcpFlow → TcpFlow
  unfolding send_pnt
  handle_unparseable now t size f =
      if ltb 0 size then send_pnt now t t (dropped_bytes size) f else f

  pub no_parser : TcpFlow → TcpFlow
  no_parser f = record f { current_parser = none; current_parser_ctx = none }

  -- The first part of reassembledWithIgnore, where there is no parser yet: the flow, and the data that
  -- go to the new parser if one was made.
  pub select_phase : (ℕ → ℕ) → ScatterGather → ℕ → TcpFlow → TcpFlow × Option Bytes
  unfolding handle_unparseable
  select_phase clock sg ignore f =
      let (decision, discard_front) = select (drop ignore sg.bytes) sg.is_end in
      let t = sg.timestamp_at ignore in
      let f1 = handle_unparseable (clock (length f.sent)) t discard_front f in
      let pkt_data = drop discard_front (drop ignore sg.bytes) in
      let now = clock (length f1.sent) in
      elim decision [
        | need_more_data ↦ (
          record f1 { unused_accept_buf = pkt_data; kept_from = some (ignore + discard_front) },
          none,
        )
        | reject ↦ (record f1 { unused_accept_buf = [] }, none)
        | unsupported ↦ (handle_unparseable now t (length pkt_data) f1, none)
        | accept fact ↦
            let f2 : TcpFlow = record f1 { unused_accept_buf = [] } in
            elim (sg.context_at (ignore + discard_front)) [
              | with_seq ctx ↦ (
                record f2 {
                  current_parser = some (create_parser fact ctx.seq ctx.ack);
                  current_parser_ctx = some ctx;
                },
                some pkt_data,
              )
              | nil_context ↦ (
                handle_unparseable now t (length pkt_data) (record f2 {
                  counters = record f2.counters {
                    nil_assembler_context = f2.counters.nil_assembler_context + 1;
                  };
                }),
                none,
              )
              | other_context ↦ (
                handle_unparseable now t (length pkt_data) (record f2 {
                  counters = record f2.counters {
                    bad_assembler_context_type = f2.counters.bad_assembler_context_type + 1;
                  };
                }),
                none,
              )
            ]
      ]

  -- Content that is complete: it is sent, with the time of the last packet if it is known.
  pub send_parsed : (ℕ → ℕ) → Option ℕ → Context → Content → TcpFlow → TcpFlow
  unfolding send_pnt no_parser
  send_parsed clock ac ctx content f = elim ac [
    | some parse_end ↦
        no_parser (send_pnt (clock (length f.sent)) ctx.timestamp parse_end content f)
    | none ↦ no_parser (
        send_pnt (clock (length f.sent)) ctx.timestamp ctx.timestamp content (record f {
          counters = record f.counters {
            nil_assembler_context_after_parse = f.counters.nil_assembler_context_after_parse + 1;
          };
        }))
  ]

  -- What is left after the content: it is parsed at once if the stream ends, or kept.
  pub go_on : (ℕ → TcpFlow → Result TcpFlow) → ScatterGather → Bytes → TcpFlow → Result TcpFlow
  go_on again sg unused f =
      let offset = length sg.bytes - length unused in
      if ltb 0 (length unused)
      then (if sg.is_end then again offset f else ok (record f { kept_from = some offset }))
      else ok f

  -- The second part, with the parser; `again` is the recursive call.
  pub parse_phase :
      (ℕ → TcpFlow → Result TcpFlow)
      → (ℕ → ℕ)
      → ScatterGather
      → Option ℕ
      → Bytes
      → TcpFlow
      → Result TcpFlow
  unfolding handle_unparseable send_parsed go_on no_parser
  parse_phase again clock sg ac pkt_data f = elim f.current_parser [
    | none ↦ nil_dereference
    | some p ↦ elim (parse p pkt_data sg.is_end) [
      | unfinished p' ↦ ok (record f { current_parser = some p' })
      | parse_error consumed ↦ elim f.current_parser_ctx [
        | none ↦ nil_dereference
        | some ctx ↦
            ok (no_parser (handle_unparseable (clock (length f.sent)) ctx.timestamp consumed f))
      ]
      | parsed content unused ↦ elim f.current_parser_ctx [
        | none ↦ nil_dereference
        | some ctx ↦ go_on again sg unused (send_parsed clock ac ctx content f)
      ]
    ]
  ]

  -- reassembledWithIgnore; `ac` is the capture time of the assembler's context, if it is not nil.
  pub reassembled_with_ignore :
      ℕ → (ℕ → ℕ) → ScatterGather → Option ℕ → ℕ → TcpFlow → Result TcpFlow
  unfolding select_phase parse_phase
  reassembled_with_ignore zero clock sg ac ignore f = out_of_fuel
  reassembled_with_ignore (suc fuel) clock sg ac ignore f =
      let again = reassembled_with_ignore fuel clock sg ac in
      elim f.current_parser [
        | some _ ↦ parse_phase again clock sg ac (drop ignore sg.bytes) f
        | none ↦
            let (f', selected) = select_phase clock sg ignore f in
            elim selected [
              | none ↦ ok f'
              | some pkt_data ↦ parse_phase again clock sg ac pkt_data f'
            ]
      ]

  -- reassembled. A new parser uses some of its bytes, so there are fewer rounds than bytes, and two.
  pub reassembled : (ℕ → ℕ) → ScatterGather → Option ℕ → TcpFlow → Result TcpFlow
  unfolding reassembled_with_ignore
  reassembled clock sg ac f =
      reassembled_with_ignore (suc (suc (length sg.bytes))) clock sg ac 0
        (record f { kept_from = none })

  -- reassemblyComplete; `first` and `last` are what the clock shows to its own two calls.
  pub reassembly_complete : (ℕ → ℕ) → ℕ → ℕ → TcpFlow → Result TcpFlow
  unfolding handle_unparseable send_pnt no_parser
  reassembly_complete clock first last f = elim f.current_parser [
    | some p ↦ elim f.current_parser_ctx [
      | none ↦ nil_dereference
      | some ctx ↦
          let t = ctx.timestamp in
          elim (parse p [] true) [
            | parse_error consumed ↦
                ok (no_parser (handle_unparseable (clock (length f.sent)) t consumed f))
            | parsed content unused ↦
                let f' = send_pnt (clock (length f.sent)) t t content f in
                ok (no_parser (handle_unparseable (clock (length f'.sent)) t (length unused) f'))
            | unfinished _ ↦ ok (no_parser f)
          ]
    ]
    | none ↦
        if ltb 0 (length f.unused_accept_buf)
        then ok (
            send_pnt (clock (length f.sent)) first last (dropped_bytes (length f.unused_accept_buf))
              f)
        else ok f
  ]

  pub data Event : Type 0 where
    segment : (ℕ → ℕ) → ScatterGather → Option ℕ → Event
    complete : (ℕ → ℕ) → (first last : ℕ) → Event

  pub step : TcpFlow → Event → Result TcpFlow
  unfolding reassembled reassembly_complete
  step f (segment clock sg ac) = reassembled clock sg ac f
  step f (complete clock first last) = reassembly_complete clock first last f

  pub run : TcpFlow → List Event → Result TcpFlow
  run f [] = ok f
  run f (e ∷ es) = elim (step f e) [
    | ok f' ↦ run f' es
    | nil_dereference ↦ nil_dereference
    | out_of_fuel ↦ out_of_fuel
  ]
