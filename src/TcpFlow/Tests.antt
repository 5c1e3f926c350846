-- ===== src/TcpFlow/Tests.antt =====
-- Runs of pcap/stream.go with a small library: a parser that takes two bytes.
use postman_insights_agent.Prelude.{
  ℕ, zero, ◌+◌, ◌≡◌, refl, true, some, List, [], ◌∷◌, arith, length,
}
use postman_insights_agent.Traffic.{Bytes}
use postman_insights_agent.TcpFlow.{
  ParserLibrary, Decision, accept, need_more_data, with_seq, Outcome, parsed, unfinished, Context,
  TcpFlow, ScatterGather, Result, ok, Event, segment, complete, run, new_tcp_flow, Counters,
  Traffic, reassembled_with_ignore, reassembled, reassembly_complete, step, select_phase,
  parse_phase, go_on, send_parsed, send_pnt, no_parser, handle_unparseable,
}
use postman_insights_agent.TcpFlow.Recursion.{Good}
use postman_insights_agent.TcpFlow.Histories.{run-new_tcp_flow}

abbrev two_bytes : Bytes → Outcome Unit ℕ
two_bytes (a ∷ b ∷ rest) = parsed (a + b) rest
two_bytes _ = unfinished tt

two_bytes-length :
    (d : Bytes) {c : ℕ} {u : Bytes} → two_bytes d ≡ parsed c u → length d ≡ 2 + length u
two_bytes-length [] e = absurd (ground (arith, e))
two_bytes-length (a ∷ []) e = absurd (ground (arith, e))
two_bytes-length (a ∷ b ∷ rest) e = ground (arith, e)

abbrev selected : Bytes → Decision Unit × ℕ
selected [] = (need_more_data, 0)
selected (zero ∷ _) = (accept tt, 1)
selected _ = (accept tt, 0)

abbrev pairs : ParserLibrary
pairs = record {
  Parser = Unit;
  Factory = Unit;
  Content = ℕ;
  dropped_bytes = λ n. n;
  select = λ d _. selected d;
  create_parser = λ _ _ _. tt;
  parse = λ _ d _. two_bytes d;
  unused_latest = λ p d e o. omega (arith, two_bytes-length d o);
  new_uses = λ f s a d e o _. omega (arith, two_bytes-length d o);
}

abbrev counters : Counters
counters = record {
  nil_assembler_context = 0;
  nil_assembler_context_after_parse = 0;
  bad_assembler_context_type = 0;
  zero_value_packet_timestamp = 0;
  last_packet_before_first_packet = 0;
}

abbrev context : Context
context = record { timestamp = 5; seq = 1; ack = 2 }

abbrev clock : ℕ → ℕ
clock _ = 9

-- Two messages and a byte of a third, in the last packet of a stream.
abbrev last_packet : ScatterGather
last_packet = record {
  bytes = 0 ∷ 1 ∷ 2 ∷ 3 ∷ 4 ∷ 5 ∷ [];
  is_end = true;
  timestamp_at = λ _. 4;
  context_at = λ _. with_seq context;
}

abbrev events : List (Event pairs)
events = segment clock last_packet (some 3) ∷ complete clock 9 9 ∷ []

abbrev traffic : ℕ → ℕ → ℕ → Traffic pairs
traffic c first last = record { content = c; observation_time = first; final_packet_time = last }

abbrev sent : Result (TcpFlow pairs) → List (Traffic pairs)
sent (ok f) = f.sent
sent _ = []

run-new_tcp_flow-sent :
    sent (run pairs (new_tcp_flow pairs counters) events)
    ≡ traffic 1 4 4 ∷ traffic 3 5 5 ∷ traffic 7 5 5 ∷ []
unfolding run step reassembled reassembled_with_ignore select_phase parse_phase go_on send_parsed
    send_pnt no_parser handle_unparseable reassembly_complete new_tcp_flow
run-new_tcp_flow-sent = refl

run-new_tcp_flow_example : Good pairs (run pairs (new_tcp_flow pairs counters) events)
run-new_tcp_flow_example =
    run-new_tcp_flow pairs counters events ((λ _. omega arith), ((λ _. omega arith), tt))
