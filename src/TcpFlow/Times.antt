-- ===== src/TcpFlow/Times.antt =====
-- pcap/stream.go: the times of what a flow sends.
use postman_insights_agent.Prelude.{
  ℕ, ◌≤◌, ◌<◌, ◌≡◌, refl, Bool, true, false, Option, none, some, arith, length, ltb, All,
  All-append, if_cases,
}
use postman_insights_agent.TcpFlow.{
  ParserLibrary, Traffic, TcpFlow, Context, send_pnt, handle_unparseable, no_parser, new_tcp_flow,
  Counters, send_parsed,
}

module _ (lib : ParserLibrary) where
  -- The time of observation is not zero, and not after the final time.
  abbrev pub IsTimely : Traffic lib → Type 0
  IsTimely t = (0 < t.observation_time) × (t.observation_time ≤ t.final_packet_time)

  abbrev pub is_some : {A : Type 0} → Option A → Bool
  is_some none = false
  is_some (some _) = true

  -- A parser and the context of its first packet come together.
  pub record Inv (f : TcpFlow lib) : Type 0 where
    pub paired : is_some f.current_parser ≡ is_some f.current_parser_ctx
    pub timely : All IsTimely f.sent

  pub send_pnt-Inv :
      (now first last : ℕ) (content : lib.Content) (f : TcpFlow lib)
      → 0 < now
      → Inv f
      → Inv (send_pnt lib now first last content f)
  unfolding send_pnt
  send_pnt-Inv now first last content f h v = record {
    paired = v.paired;
    timely = All-append IsTimely f.sent _ v.timely (ground arith);
  }

  pub handle_unparseable-Inv :
      (now t size : ℕ) (f : TcpFlow lib)
      → 0 < now
      → Inv f
      → Inv (handle_unparseable lib now t size f)
  unfolding handle_unparseable
  handle_unparseable-Inv now t size f h v =
      if_cases Inv (ltb 0 size) (λ _. send_pnt-Inv now t t (lib.dropped_bytes size) f h v) (λ _. v)

  pub no_parser-Inv : (f : TcpFlow lib) → Inv f → Inv (no_parser lib f)
  unfolding no_parser
  no_parser-Inv f v = record { paired = refl; timely = v.timely }

  pub send_parsed-Inv :
      (clock : ℕ → ℕ) (ac : Option ℕ) (ctx : Context) (content : lib.Content) (f : TcpFlow lib)
      → ((n : ℕ) → 0 < clock n)
      → Inv f
      → Inv (send_parsed lib clock ac ctx content f)
  unfolding send_parsed
  send_parsed-Inv clock none ctx content f h v = no_parser-Inv _ (
      send_pnt-Inv (clock (length f.sent)) ctx.timestamp ctx.timestamp content _ (h (length f.sent))
        (record { paired = v.paired; timely = v.timely }))
  send_parsed-Inv clock (some t) ctx content f h v =
      no_parser-Inv _
        (send_pnt-Inv (clock (length f.sent)) ctx.timestamp t content f (h (length f.sent)) v)

  pub new_tcp_flow-Inv : (counters : Counters) → Inv (new_tcp_flow lib counters)
  unfolding new_tcp_flow
  new_tcp_flow-Inv counters = record { paired = refl; timely = tt }
