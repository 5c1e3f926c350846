-- ===== src/TcpFlow/Histories.antt =====
-- pcap/stream.go: the calls on a flow, in any order.
use postman_insights_agent.Prelude.{ℕ, ◌<◌, ◌≡◌, refl, Option, List, [], ◌∷◌, All}
use postman_insights_agent.TcpFlow.{
  ParserLibrary, TcpFlow, Result, ok, nil_dereference, out_of_fuel, Event, segment, complete, step,
  run, new_tcp_flow, Counters, ScatterGather, reassembled, reassembly_complete,
}
use postman_insights_agent.TcpFlow.Times.{Inv, new_tcp_flow-Inv}
use postman_insights_agent.TcpFlow.Recursion.{Good, reassembled-Good, reassembly_complete-Good}

module _ (lib : ParserLibrary) where
  -- The clock shows no zero time.
  abbrev pub HasClock : Event lib → Type 0
  HasClock (segment clock sg ac) = (n : ℕ) → 0 < clock n
  HasClock (complete clock first last) = (n : ℕ) → 0 < clock n

  step-Good : (f : TcpFlow lib) (e : Event lib) → HasClock e → Inv lib f → Good lib (step lib f e)
  unfolding step
  step-Good f (segment clock sg ac) h v = reassembled-Good lib clock sg ac f h v
  step-Good f (complete clock first last) h v = reassembly_complete-Good lib clock first last f h v

  follow-Good :
      (r : Result (TcpFlow lib)) (k : TcpFlow lib → Result (TcpFlow lib))
      → Good lib r
      → ((f : TcpFlow lib) → Inv lib f → Good lib (k f))
      → Good lib
          (elim r [ ok f ↦ k f | nil_dereference ↦ nil_dereference | out_of_fuel ↦ out_of_fuel ])
  follow-Good (ok f) k v h = h f v
  follow-Good nil_dereference k v h = absurd v
  follow-Good out_of_fuel k v h = absurd v

  pub run-nil : (f : TcpFlow lib) → run lib f [] ≡ ok f
  unfolding run
  run-nil f = refl

  pub run-segment :
      (clock : ℕ → ℕ) (sg : ScatterGather) (ac : Option ℕ) (es : List (Event lib))
      (f f' : TcpFlow lib)
      → reassembled lib clock sg ac f ≡ ok f'
      → run lib f (segment clock sg ac ∷ es) ≡ run lib f' es
  unfolding run step
  run-segment clock sg ac es f f' e = rw (run, step, e) refl

  pub run-complete :
      (clock : ℕ → ℕ) (first last : ℕ) (es : List (Event lib)) (f f' : TcpFlow lib)
      → reassembly_complete lib clock first last f ≡ ok f'
      → run lib f (complete clock first last ∷ es) ≡ run lib f' es
  unfolding run step
  run-complete clock first last es f f' e = rw (run, step, e) refl

  run-Good :
      (f : TcpFlow lib) (es : List (Event lib))
      → All HasClock es
      → Inv lib f
      → Good lib (run lib f es)
  unfolding run
  run-Good f [] h v = v
  run-Good f (e ∷ es) h v =
      follow-Good (step lib f e) _ (step-Good f e h.0 v) (λ f' v'. run-Good f' es h.1 v')

  -- In any history of a new flow in which the clock shows no zero time, there is no dereference of
  -- a missing parser or context, every call of reassembled ends, and in the end there is a parser
  -- exactly if there is a context of its first packet, and all that was sent has a time of
  -- observation that is not zero and not after its final time.
  pub run-new_tcp_flow :
      (counters : Counters) (es : List (Event lib))
      → All HasClock es
      → Good lib (run lib (new_tcp_flow lib counters) es)
  run-new_tcp_flow counters es h =
      run-Good (new_tcp_flow lib counters) es h (new_tcp_flow-Inv lib counters)
