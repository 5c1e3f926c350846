-- ===== src/TcpFlow/Recursion.antt =====
-- pcap/stream.go: the rounds of reassembledWithIgnore, and reassemblyComplete.
use postman_insights_agent.Prelude.{
  ℕ, zero, suc, ◌+◌, ◌-◌, ◌≤◌, ◌<◌, ◌≡◌, refl, subst, true, Option, none, some, [], arith, length,
  drop, length-drop, ltb, if_cases, option_cases,
}
use postman_insights_agent.Traffic.{Bytes}
use postman_insights_agent.TcpFlow.{
  ParserLibrary, parsed, Context, TcpFlow, ScatterGather, Result, ok, select_phase, parse_phase,
  go_on, send_parsed, reassembled_with_ignore, reassembled, reassembly_complete, handle_unparseable,
}
use postman_insights_agent.TcpFlow.Times.{
  is_some, Inv, send_pnt-Inv, handle_unparseable-Inv, no_parser-Inv, send_parsed-Inv,
}
use postman_insights_agent.TcpFlow.Cases.{outcome_cases, decision_cases, context_cases}

module _ (lib : ParserLibrary) where
  -- A flow that keeps its invariant, and neither a nil dereference nor an end of the fuel.
  abbrev pub Good : Result (TcpFlow lib) → Type 0
  Good (ok f) = Inv lib f
  Good _ = ⊥

  module _ (clock : ℕ → ℕ) (shows : (n : ℕ) → 0 < clock n) (sg : ScatterGather)
      (ac : Option ℕ) where
    send_parsed-none :
        (ac' : Option ℕ) (ctx : Context) (content : lib.Content) (f : TcpFlow lib)
        → (send_parsed lib clock ac' ctx content f).current_parser ≡ none
    unfolding send_parsed
    send_parsed-none none ctx content f = refl
    send_parsed-none (some t) ctx content f = refl

    go_on-Good :
        (again : ℕ → TcpFlow lib → Result (TcpFlow lib)) (unused : Bytes) (f : TcpFlow lib)
        → Inv lib f
        → (0 < length unused → Good (again (length sg.bytes - length unused) f))
        → Good (go_on lib again sg unused f)
    unfolding go_on
    go_on-Good again unused f v h =
        if_cases Good (ltb 0 (length unused))
          (λ more.
            if_cases Good sg.is_end (λ _. h (ground arith))
              (λ _. record { paired = v.paired; timely = v.timely }))
          (λ _. v)

    -- Another round comes only after content, for a flow without a parser.
    abbrev Again : (ℕ → TcpFlow lib → Result (TcpFlow lib)) → Bytes → TcpFlow lib → Type 0
    Again again d f =
        (p : lib.Parser) (f' : TcpFlow lib) (c : lib.Content) (u : Bytes)
        → f.current_parser ≡ some p
        → lib.parse p d sg.is_end ≡ parsed c u
        → 0 < length u
        → Inv lib f'
        → f'.current_parser ≡ none
        → Good (again (length sg.bytes - length u) f')

    parse_phase-Good :
        (again : ℕ → TcpFlow lib → Result (TcpFlow lib)) (d : Bytes) (f : TcpFlow lib)
        → Inv lib f
        → is_some lib f.current_parser ≡ true
        → Again again d f
        → Good (parse_phase lib again clock sg ac d f)
    unfolding parse_phase
    parse_phase-Good again d f v here h =
        option_cases Good f.current_parser (λ e. absurd (ground (arith, e)))
          (λ p e.
            outcome_cases Good (lib.parse p d sg.is_end)
              (λ n _.
                option_cases Good f.current_parser_ctx
                  (λ e'. absurd (ground (arith, e, e', v.paired)))
                  (λ ctx _.
                    no_parser-Inv lib _
                      (handle_unparseable-Inv lib _ ctx.timestamp n f (shows _) v)))
              (λ c u o.
                option_cases Good f.current_parser_ctx
                  (λ e'. absurd (ground (arith, e, e', v.paired)))
                  (λ ctx _.
                    go_on-Good again u (send_parsed lib clock ac ctx c f)
                      (send_parsed-Inv lib clock ac ctx c f shows v)
                      (λ more.
                        h p (send_parsed lib clock ac ctx c f) c u e o more
                          (send_parsed-Inv lib clock ac ctx c f shows v)
                          (send_parsed-none ac ctx c f))))
              (λ p' _. record { paired = ground (arith, e, v.paired); timely = v.timely }))

    -- What the first part hands on is to be read by a new parser, and no longer than what it had.
    abbrev Selected : ℕ → TcpFlow lib × Option Bytes → Type 0
    Selected n (f, none) = Inv lib f
    Selected n (f, some d) =
        Inv lib f
        × (fact : lib.Factory) × (s : ℕ) × (a : ℕ) × (f.current_parser
            ≡ some (lib.create_parser fact s a))
        × (length d ≤ n)

    select_phase-Selected :
        (ignore : ℕ) (f : TcpFlow lib)
        → Inv lib f
        → f.current_parser ≡ none
        → Selected (length sg.bytes - ignore) (select_phase lib clock sg ignore f)
    unfolding select_phase
    select_phase-Selected ignore f v here =
        let chosen = lib.select (drop ignore sg.bytes) sg.is_end in
        let t = sg.timestamp_at ignore in
        let f1 = handle_unparseable lib (clock (length f.sent)) t chosen.1 f in
        let v1 : Inv lib f1 =
          handle_unparseable-Inv lib (clock (length f.sent)) t chosen.1 f (shows (length f.sent))
            v in
        let P = Selected (length sg.bytes - ignore) in
        let size = length (drop chosen.1 (drop ignore sg.bytes)) in
        decision_cases P chosen.0 (record { paired = v1.paired; timely = v1.timely })
          (record { paired = v1.paired; timely = v1.timely })
          (handle_unparseable-Inv lib _ t size f1 (shows _) v1)
          (λ fact.
            context_cases P (sg.context_at (ignore + chosen.1))
              (λ ctx. (
                (record { paired = refl; timely = v1.timely }),
                fact,
                ctx.seq,
                ctx.ack,
                refl,
                omega (
                  arith,
                  length-drop chosen.1 (drop ignore sg.bytes),
                  length-drop ignore sg.bytes,
                ),
              ))
              (handle_unparseable-Inv lib _ t size _ (shows _)
                (record { paired = v1.paired; timely = v1.timely }))
              (handle_unparseable-Inv lib _ t size _ (shows _)
                (record { paired = v1.paired; timely = v1.timely })))

    -- The second part for a new parser.
    round-Good :
        (again : ℕ → TcpFlow lib → Result (TcpFlow lib)) (n : ℕ)
        (selected : TcpFlow lib × Option Bytes)
        → Selected n selected
        → ((f' : TcpFlow lib) (u : Bytes)
            → length u < n
            → Inv lib f'
            → f'.current_parser ≡ none
            → Good (again (length sg.bytes - length u) f'))
        → Good (elim selected.1 [
          | none ↦ ok selected.0
          | some d ↦ parse_phase lib again clock sg ac d selected.0
        ])
    round-Good again n (f, none) s h = s
    round-Good again n (f, some d) s h =
        let (v, fact, seq, ack, made, short) = s in
        parse_phase-Good again d f v (rw made refl) (λ p f' c u e o more v' gone.
          (let same : p ≡ lib.create_parser fact seq ack = cc in
            let used =
              lib.new_uses fact seq ack d sg.is_end
                (subst (λ q. lib.parse q d sg.is_end ≡ parsed c u) same o) more in
            h f' u (omega arith) v' gone))

    -- A flow without a parser, with more fuel than bytes.
    fresh-Good :
        (fuel ignore : ℕ) (f : TcpFlow lib)
        → length sg.bytes - ignore < fuel
        → Inv lib f
        → f.current_parser ≡ none
        → Good (reassembled_with_ignore lib fuel clock sg ac ignore f)
    unfolding reassembled_with_ignore
    fresh-Good zero ignore f m v here = absurd (omega arith)
    fresh-Good (suc fuel) ignore f m v here =
        option_cases Good f.current_parser
          (λ _.
            round-Good (reassembled_with_ignore lib fuel clock sg ac) (length sg.bytes - ignore)
              (select_phase lib clock sg ignore f) (select_phase-Selected ignore f v here)
              (λ f' u short v' gone.
                fresh-Good fuel (length sg.bytes - length u) f' (omega arith) v' gone))
          (λ p e. absurd (cc))

    any-Good :
        (fuel : ℕ) (f : TcpFlow lib)
        → length sg.bytes < fuel
        → Inv lib f
        → Good (reassembled_with_ignore lib (suc fuel) clock sg ac 0 f)
    unfolding reassembled_with_ignore
    any-Good fuel f m v =
        option_cases Good f.current_parser
          (λ gone.
            round-Good (reassembled_with_ignore lib fuel clock sg ac) (length sg.bytes - 0)
              (select_phase lib clock sg 0 f) (select_phase-Selected 0 f v gone)
              (λ f' u short v' gone'.
                fresh-Good fuel (length sg.bytes - length u) f' (omega arith) v' gone'))
          (λ p e.
            parse_phase-Good (reassembled_with_ignore lib fuel clock sg ac) (drop 0 sg.bytes) f v
              (rw e refl)
              (λ q f' c u _ o more v' gone.
                (let latest = lib.unused_latest q (drop 0 sg.bytes) sg.is_end o in
                  let whole = length-drop 0 sg.bytes in
                  fresh-Good fuel (length sg.bytes - length u) f' (omega arith) v' gone)))

  pub reassembled-Good :
      (clock : ℕ → ℕ) (sg : ScatterGather) (ac : Option ℕ) (f : TcpFlow lib)
      → ((n : ℕ) → 0 < clock n)
      → Inv lib f
      → Good (reassembled lib clock sg ac f)
  unfolding reassembled
  reassembled-Good clock sg ac f shows v =
      any-Good clock shows sg ac (suc (length sg.bytes)) _ (omega arith)
        (record { paired = v.paired; timely = v.timely })

  pub reassembly_complete-Good :
      (clock : ℕ → ℕ) (first last : ℕ) (f : TcpFlow lib)
      → ((n : ℕ) → 0 < clock n)
      → Inv lib f
      → Good (reassembly_complete lib clock first last f)
  unfolding reassembly_complete
  reassembly_complete-Good clock first last f shows v =
      option_cases Good f.current_parser
        (λ _.
          if_cases Good (ltb 0 (length f.unused_accept_buf))
            (λ _. send_pnt-Inv lib _ first last _ f (shows _) v) (λ _. v))
        (λ p e.
          option_cases Good f.current_parser_ctx (λ e'. absurd (ground (arith, e, e', v.paired)))
            (λ ctx _.
              outcome_cases Good (lib.parse p [] true)
                (λ n _.
                  no_parser-Inv lib _ (handle_unparseable-Inv lib _ ctx.timestamp n f (shows _) v))
                (λ c u _. no_parser-Inv lib _ (
                  handle_unparseable-Inv lib _ ctx.timestamp (length u) _ (shows _)
                    (send_pnt-Inv lib _ ctx.timestamp ctx.timestamp c f (shows _) v)))
                (λ _ _. no_parser-Inv lib f v)))
