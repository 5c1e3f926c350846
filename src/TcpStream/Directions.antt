-- ===== src/TcpStream/Directions.antt =====
-- pcap/stream.go: what a stream does with the flow of each direction.
use postman_insights_agent.Prelude.{
  ℕ, ◌<◌, ◌≡◌, refl, ◌∙◌, subst, Bool, true, false, Option, some, List, [], ◌∷◌, All,
}
use postman_insights_agent.TcpFlow.{
  ParserLibrary, ScatterGather, Result, ok, nil_dereference, out_of_fuel, TcpFlow, reassembled,
  reassembly_complete, new_tcp_flow,
}
use postman_insights_agent.TcpFlow.Times.{Inv}
use postman_insights_agent.TcpFlow.Recursion.{Good, reassembled-Good, reassembly_complete-Good}
use postman_insights_agent.TcpFlow.Histories.{run-nil, run-segment, run-complete}
use postman_insights_agent.TcpStream.{
  Flows, TcpStream, ClockReadings, complete_flow, Event, packet, segment, complete, step, run,
  accept_packet, reassembled_sg, stream_complete, update_flow,
}
use postman_insights_agent.TcpFlow as Single

module _ (lib : ParserLibrary) where
  -- The calls that concern the flow of a direction.
  abbrev pub calls_on : Bool → List (Event lib) → List (Single.Event lib)
  calls_on dir [] = []
  calls_on dir (packet tcp d t ∷ es) = calls_on dir es
  calls_on true (segment clock true sg ac ∷ es) = Single.segment clock sg ac ∷ calls_on true es
  calls_on true (segment clock false sg ac ∷ es) = calls_on true es
  calls_on false (segment clock true sg ac ∷ es) = calls_on false es
  calls_on false (segment clock false sg ac ∷ es) = Single.segment clock sg ac ∷ calls_on false es
  calls_on true (complete c c' ∷ es) = Single.complete c.clock c.first c.last ∷ calls_on true es
  calls_on false (complete c c' ∷ es) =
      Single.complete c'.clock c'.first c'.last ∷ calls_on false es

  -- No clock shows a zero time.
  abbrev pub HasClocks : Event lib → Type 0
  HasClocks (packet tcp dir t) = Unit
  HasClocks (segment clock dir sg ac) = (n : ℕ) → 0 < clock n
  HasClocks (complete c c') = ((n : ℕ) → 0 < c.clock n) × ((n : ℕ) → 0 < c'.clock n)

  pub Good-ok : (r : Result (TcpFlow lib)) → Good lib r → (f : TcpFlow lib) × (r ≡ ok f) × Inv lib f
  Good-ok (ok f) v = (f, refl, v)
  Good-ok nil_dereference v = absurd v
  Good-ok out_of_fuel v = absurd v

  -- The stream ends, with flows that went through their own calls alone.
  abbrev pub Apart : Flows lib → List (Event lib) → Result (TcpStream lib) → Type 0
  Apart flows es r =
      (s : TcpStream lib) × (after : Flows lib) × (r ≡ ok s)
      × (s.flows ≡ some after)
      × (Single.run lib flows.forward.tcp_flow (calls_on true es) ≡ ok after.forward.tcp_flow)
      × (Single.run lib flows.backward.tcp_flow (calls_on false es) ≡ ok after.backward.tcp_flow)
      × (after.forward.ends ≡ flows.forward.ends)
      × (after.backward.ends ≡ flows.backward.ends)

  run-forward :
      (clock : ℕ → ℕ) (sg : ScatterGather) (ac : Option ℕ) (es : List (Event lib))
      (s : TcpStream lib) (flows : Flows lib) (f : TcpFlow lib)
      → s.flows ≡ some flows
      → reassembled lib clock sg ac flows.forward.tcp_flow ≡ ok f
      → run lib
          (record s {
            flows = some (record flows { forward = record flows.forward { tcp_flow = f } });
          })
          es
        ≡ run lib s (segment clock true sg ac ∷ es)
  unfolding run step reassembled_sg update_flow
  run-forward clock sg ac es s flows f here e =
      rw (run, step, reassembled_sg, here, update_flow, e) refl

  run-backward :
      (clock : ℕ → ℕ) (sg : ScatterGather) (ac : Option ℕ) (es : List (Event lib))
      (s : TcpStream lib) (flows : Flows lib) (f : TcpFlow lib)
      → s.flows ≡ some flows
      → reassembled lib clock sg ac flows.backward.tcp_flow ≡ ok f
      → run lib
          (record s {
            flows = some (record flows { backward = record flows.backward { tcp_flow = f } });
          })
          es
        ≡ run lib s (segment clock false sg ac ∷ es)
  unfolding run step reassembled_sg update_flow
  run-backward clock sg ac es s flows f here e =
      rw (run, step, reassembled_sg, here, update_flow, e) refl

  run-both :
      (r r' : ClockReadings) (es : List (Event lib)) (s : TcpStream lib) (flows : Flows lib)
      (f g : TcpFlow lib)
      → s.flows ≡ some flows
      → complete_flow lib r flows.forward.tcp_flow ≡ ok f
      → complete_flow lib r' flows.backward.tcp_flow ≡ ok g
      → run lib
          (record s {
            flows = some (record {
              forward = record flows.forward { tcp_flow = f };
              backward = record flows.backward { tcp_flow = g };
            });
          })
          es
        ≡ run lib s (complete r r' ∷ es)
  unfolding run step stream_complete update_flow
  run-both r r' es s flows f g here e e' =
      rw (run, step, stream_complete, here, update_flow, e, e') refl

  pub run-Apart :
      (s : TcpStream lib) (flows : Flows lib) (es : List (Event lib))
      → s.flows ≡ some flows
      → All HasClocks es
      → Inv lib flows.forward.tcp_flow
      → Inv lib flows.backward.tcp_flow
      → Apart flows es (run lib s es)
  unfolding run step accept_packet
  run-Apart s flows [] here h v w = (s, flows, refl, here, run-nil lib _, run-nil lib _, refl, refl)
  run-Apart s flows (packet tcp dir t ∷ es) here h v w =
      run-Apart (accept_packet lib tcp dir t s) flows es (rw here refl) h.1 v w
  run-Apart s flows (segment clock true sg ac ∷ es) here h v w =
      let (f, e, v') =
        Good-ok (reassembled lib clock sg ac flows.forward.tcp_flow)
          (reassembled-Good lib clock sg ac flows.forward.tcp_flow h.0 v) in
      let flows' : Flows lib = record flows { forward = record flows.forward { tcp_flow = f } } in
      subst (Apart flows (segment clock true sg ac ∷ es))
        (run-forward clock sg ac es s flows f here e)
        (let (s', after, ended, there, a, b, c, d) =
            run-Apart (record s { flows = some flows' }) flows' es refl h.1 v' w in
          (s', after, ended, there, run-segment lib clock sg ac _ _ _ e ∙ a, b, c, d))
  run-Apart s flows (segment clock false sg ac ∷ es) here h v w =
      let (f, e, w') =
        Good-ok (reassembled lib clock sg ac flows.backward.tcp_flow)
          (reassembled-Good lib clock sg ac flows.backward.tcp_flow h.0 w) in
      let flows' : Flows lib = record flows { backward = record flows.backward { tcp_flow = f } } in
      subst (Apart flows (segment clock false sg ac ∷ es))
        (run-backward clock sg ac es s flows f here e)
        (let (s', after, ended, there, a, b, c, d) =
            run-Apart (record s { flows = some flows' }) flows' es refl h.1 v w' in
          (s', after, ended, there, a, run-segment lib clock sg ac _ _ _ e ∙ b, c, d))
  run-Apart s flows (complete r r' ∷ es) here h v w =
      let (f, e, v') =
        Good-ok (complete_flow lib r flows.forward.tcp_flow)
          (reassembly_complete-Good lib r.clock r.first r.last flows.forward.tcp_flow h.0.0 v) in
      let (g, e', w') =
        Good-ok (complete_flow lib r' flows.backward.tcp_flow) (
          reassembly_complete-Good lib r'.clock r'.first r'.last flows.backward.tcp_flow h.0.1 w) in
      let flows' : Flows lib = record {
        forward = record flows.forward { tcp_flow = f };
        backward = record flows.backward { tcp_flow = g };
      } in
      subst (Apart flows (complete r r' ∷ es)) (run-both r r' es s flows f g here e e') (
        let (s', after, ended, there, a, b, c, d) =
          run-Apart (record s { flows = some flows' }) flows' es refl h.1 v' w' in
        (
          s',
          after,
          ended,
          there,
          run-complete lib r.clock r.first r.last _ _ _ e ∙ a,
          run-complete lib r'.clock r'.first r'.last _ _ _ e' ∙ b,
          c,
          d,
        ))
