-- ===== src/TcpStream/Tests.antt =====
-- Runs of tcpStream of pcap/stream.go, with a parser that takes one byte.
use postman_insights_agent.Prelude.{
  ℕ, ◌+◌, ◌≡◌, refl, true, false, none, some, List, [], ◌∷◌, arith, length,
}
use postman_insights_agent.Traffic.{Bytes}
use postman_insights_agent.TcpFlow.{
  ParserLibrary, accept, with_seq, Outcome, parsed, unfinished, ScatterGather,
}
use postman_insights_agent.TcpStream.{
  TcpLayer, ClockReadings, Event, packet, segment, complete, run, new_tcp_stream, accept_packet,
  ends_of,
}
use postman_insights_agent.TcpStream.Histories.{run-new_tcp_stream, Split}

abbrev one_byte : Bytes → Outcome Unit ℕ
one_byte [] = unfinished tt
one_byte (a ∷ rest) = parsed a rest

one_byte-length :
    (d : Bytes) {c : ℕ} {u : Bytes} → one_byte d ≡ parsed c u → length d ≡ 1 + length u
one_byte-length [] e = absurd (ground (arith, e))
one_byte-length (a ∷ rest) e = ground (arith, e)

abbrev bytes_library : ParserLibrary
bytes_library = record {
  Parser = Unit;
  Factory = Unit;
  Content = ℕ;
  dropped_bytes = λ n. n;
  select = λ _ _. (accept tt, 0);
  create_parser = λ _ _ _. tt;
  parse = λ _ d _. one_byte d;
  unused_latest = λ p d e o. omega (arith, one_byte-length d o);
  new_uses = λ f s a d e o _. omega (arith, one_byte-length d o);
}

abbrev request_layer : TcpLayer
request_layer = record {
  src_port = 4000;
  dst_port = 80;
  syn = true;
  ack = false;
  fin = false;
  rst = false;
  payload_length = 0;
}

abbrev reply_layer : TcpLayer
reply_layer = record request_layer { src_port = 80; dst_port = 4000; ack = true }

abbrev clock : ℕ → ℕ
clock _ = 9

abbrev bytes_at : Bytes → ScatterGather
bytes_at b = record {
  bytes = b;
  is_end = true;
  timestamp_at = λ _. 4;
  context_at = λ _. with_seq (record { timestamp = 5; seq = 1; ack = 2 });
}

abbrev readings : ClockReadings
readings = record { clock = clock; first = 9; last = 9 }

abbrev late : List (Event bytes_library)
late =
    packet reply_layer true 6
    ∷ segment clock true (bytes_at (1 ∷ [])) (some 7)
    ∷ segment clock false (bytes_at (2 ∷ 3 ∷ [])) none
    ∷ complete readings readings
    ∷ []

run-new_tcp_stream_example :
    Split bytes_library false
      (record { src_ip = 1; src_port = 4000; dst_ip = 2; dst_port = 80 })
      late
      (run bytes_library
        (new_tcp_stream bytes_library 0 1 2)
        (segment clock true (bytes_at []) none ∷ packet request_layer false 3 ∷ late))
run-new_tcp_stream_example =
    run-new_tcp_stream bytes_library 0 1 2 (segment clock true (bytes_at []) none ∷ []) late
      request_layer false 3 (tt, tt)
      (
        tt,
        ((λ _. omega arith), ((λ _. omega arith), (((λ _. omega arith), (λ _. omega arith)), tt))),
      )

-- The reply to a request from address 1: the address of its source is the client's, its port the
-- server's.
reply-ends :
    (accept_packet bytes_library reply_layer true 6 (
      accept_packet bytes_library request_layer false 3
        (new_tcp_stream bytes_library 0 1 2))).packets
    ≡ record {
      ends = record { src_ip = 1; src_port = 4000; dst_ip = 2; dst_port = 80 };
      packet = record {
        connection_id = 0;
        syn = true;
        ack = false;
        fin = false;
        rst = false;
        payload_length_bytes = 0;
      };
      observation_time = 3;
    }
      ∷ record {
        ends = record { src_ip = 1; src_port = 80; dst_ip = 2; dst_port = 4000 };
        packet = record {
          connection_id = 0;
          syn = true;
          ack = true;
          fin = false;
          rst = false;
          payload_length_bytes = 0;
        };
        observation_time = 6;
      }
      ∷ []
unfolding accept_packet new_tcp_stream ends_of
reply-ends = refl
