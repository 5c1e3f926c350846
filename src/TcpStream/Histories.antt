-- ===== src/TcpStream/Histories.antt =====
-- pcap/stream.go: the calls of the assembler on a new stream.
use postman_insights_agent.Prelude.{
  ℕ, ◌≡◌, refl, sym, subst, Bool, true, false, not, ◌++◌, none, some, List, [], ◌∷◌, All,
}
use postman_insights_agent.TcpFlow.{
  ParserLibrary, ScatterGather, Result, ok, nil_dereference, out_of_fuel, TcpFlow, reassembled,
  reassembly_complete, new_tcp_flow,
}
use postman_insights_agent.TcpFlow.Times.{new_tcp_flow-Inv}
use postman_insights_agent.TcpStream.{
  TcpLayer, Flow, Flows, TcpStream, Event, packet, segment, complete, step, run, accept_packet,
  reassembled_sg, stream_complete, first_flows, Endpoints, no_counts, reverse_ends, ends_of,
  new_tcp_stream,
}
use postman_insights_agent.TcpFlow as Single
use postman_insights_agent.TcpStream.Directions.{calls_on, HasClocks, run-Apart}

module _ (lib : ParserLibrary) where
  abbrev pub IsEarly : Event lib → Type 0
  IsEarly (packet tcp dir t) = ⊥
  IsEarly _ = Unit

  abbrev pub flow_of : Bool → Flows lib → Flow lib
  flow_of true flows = flows.forward
  flow_of false flows = flows.backward

  -- The stream ends, with flows that were new and went through their own calls alone, and with the
  -- ends of their directions.
  abbrev pub Split : Bool → Endpoints → List (Event lib) → Result (TcpStream lib) → Type 0
  Split dir ends es r =
      (s : TcpStream lib) × (after : Flows lib) × (r ≡ ok s)
      × (s.flows ≡ some after)
      × (Single.run lib (new_tcp_flow lib (no_counts lib)) (calls_on lib true es)
          ≡ ok after.forward.tcp_flow)
      × (Single.run lib (new_tcp_flow lib (no_counts lib)) (calls_on lib false es)
          ≡ ok after.backward.tcp_flow)
      × ((flow_of dir after).ends ≡ ends)
      × ((flow_of (not dir) after).ends ≡ record {
        src_ip = ends.dst_ip;
        src_port = ends.dst_port;
        dst_ip = ends.src_ip;
        dst_port = ends.src_port;
      })

  first-Split :
      (s : TcpStream lib) (tcp : TcpLayer) (dir : Bool) (t : ℕ) (es : List (Event lib))
      → s.flows ≡ none
      → All (HasClocks lib) es
      → Split dir (ends_of lib s tcp) es (run lib s (packet tcp dir t ∷ es))
  unfolding run step accept_packet first_flows reverse_ends
  first-Split s tcp true t es here h =
      let fresh = new_tcp_flow-Inv lib (no_counts lib) in
      let (s', after, ended, there, a, b, c, d) =
        run-Apart lib (accept_packet lib tcp true t s) (first_flows lib s tcp true) es
          (rw here refl) h fresh fresh in
      (s', after, ended, there, a, b, c, d)
  first-Split s tcp false t es here h =
      let fresh = new_tcp_flow-Inv lib (no_counts lib) in
      let (s', after, ended, there, a, b, c, d) =
        run-Apart lib (accept_packet lib tcp false t s) (first_flows lib s tcp false) es
          (rw here refl) h fresh fresh in
      (s', after, ended, there, a, b, d, c)

  step-early :
      (s : TcpStream lib) (e : Event lib) → s.flows ≡ none → IsEarly e → step lib s e ≡ ok s
  unfolding step reassembled_sg stream_complete
  step-early s (packet tcp dir t) here h = absurd h
  step-early s (segment clock dir sg ac) here h = rw here refl
  step-early s (complete r r') here h = rw here refl

  run-early :
      (s : TcpStream lib) (early es : List (Event lib))
      → s.flows ≡ none
      → All IsEarly early
      → run lib s (early ++ es) ≡ run lib s es
  unfolding run
  run-early s [] es here h = refl
  run-early s (e ∷ early) es here h =
      rw (run, step-early s e here h.0) (run-early s early es here h.1)

  -- If no clock shows a zero time, then a new stream to which the assembler gives anything but packets,
  -- then a packet, then any calls, ends with two flows. Each is what a new flow becomes by the calls of
  -- its own direction after the packet; the ends of that in the packet's direction are the addresses
  -- of the stream and the ports of the packet, and those of the other are the reverse.
  pub run-new_tcp_stream :
      (bidi_id src_ip dst_ip : ℕ) (early es : List (Event lib)) (tcp : TcpLayer) (dir : Bool)
      (t : ℕ)
      → All IsEarly early
      → All (HasClocks lib) es
      → Split dir
          (record {
            src_ip = src_ip;
            src_port = tcp.src_port;
            dst_ip = dst_ip;
            dst_port = tcp.dst_port;
          })
          es
          (run lib (new_tcp_stream lib bidi_id src_ip dst_ip) (early ++ packet tcp dir t ∷ es))
  unfolding new_tcp_stream ends_of
  run-new_tcp_stream bidi_id src_ip dst_ip early es tcp dir t h k =
      let s = new_tcp_stream lib bidi_id src_ip dst_ip in
      subst (Split dir (ends_of lib s tcp) es)
        (sym (run-early s early (packet tcp dir t ∷ es) refl h)) (first-Split s tcp dir t es refl k)
