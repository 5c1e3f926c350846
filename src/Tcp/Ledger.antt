-- ===== src/Tcp/Ledger.antt =====
-- tcp_conn_tracker: how often a connection is reported, over a whole history of the tracker.
use postman_insights_agent.Prelude.{
  ℕ, ◌+◌, ◌-◌, ◌*◌, ◌≡◌, refl, ◌∙◌, Bool, not, ◌&&◌, Option, none, some, List, [], ◌∷◌, arith, All,
  if◌then◌else◌, nat_eq, ◌==◌, if_cases, option_cases, sum_by, sum_by-perm, Perm, nat_beq_iff,
}
use postman_insights_agent.Prelude.Dict.{lookup, Distinct, lookup-insert, lookup-delete, lookup-All}
use postman_insights_agent.Traffic.{
  Bytes, Error, Traffic, Content, tcp_packet, tcp_connection, TcpPacketMetadata, recorder,
}
use postman_insights_agent.Tcp.{
  ConnectionInfo, Tracker, Event, arrives, expires, closes, new_info, augment_with, process_tcp,
  process_content, process, flush_connection, flush_all, close, step, run, forward, is_spurious,
  summary, new_tracker,
}
use postman_insights_agent.Tcp.Invariant.{IsFiled, Inv, step-Inv, run-new_tracker-Inv}

abbrev pub RecordedTracker : Type 0
RecordedTracker = Tracker (List Traffic)

abbrev pub one_if : Bool → ℕ
one_if b = if b then 1 else 0

-- 1 for a report on connection `id`, 0 for anything else.
abbrev pub is_report : ℕ → Content → ℕ
is_report id (tcp_connection m) = one_if (m.connection_id == id)
is_report id _ = 0

-- How many reports on `id` the downstream collector was handed.
abbrev pub reports : ℕ → List Traffic → ℕ
reports id = sum_by λ t. is_report id t.content

abbrev known : Option ConnectionInfo → ℕ
known none = 0
known (some _) = 1

-- 1 if the tracker holds `id`.
abbrev pub held : ℕ → RecordedTracker → ℕ
held id c = known (lookup id c.active_connections)

-- 1 if this packet makes a tracker that is not closed take `id` for a new connection.
abbrev opened_by : ℕ → RecordedTracker → Content → ℕ
opened_by id c (tcp_packet tcp) =
    one_if (not c.closed && (tcp.connection_id == id && not (is_spurious tcp))) * (1 - held id c)
opened_by id c _ = 0

-- The connections that an event opens, and the reports that come in from upstream.
abbrev pub opened : ℕ → RecordedTracker → Event → ℕ
opened id c (arrives t) = opened_by id c t.content
opened id c (expires _) = 0
opened id c closes = 0

abbrev pub passed : ℕ → Event → ℕ
passed id (arrives t) = is_report id t.content
passed id (expires _) = 0
passed id closes = 0

-- The reports that the entries of the map stand for.
abbrev owed : ℕ → List (ℕ × ConnectionInfo) → ℕ
owed id = sum_by λ entry. one_if (entry.1.tcp_metadata.connection_id == id)

owed_fresh :
    (id : ℕ) (m : List (ℕ × ConnectionInfo)) → All IsFiled m → lookup id m ≡ none → owed id m ≡ 0
unfolding lookup
owed_fresh id [] f d = refl
owed_fresh id ((k, info) ∷ m) f d = ground (arith, owed_fresh id m f.1, f.0.keyed)

owed-known :
    (id : ℕ) (m : List (ℕ × ConnectionInfo))
    → All IsFiled m
    → Distinct m
    → owed id m ≡ known (lookup id m)
unfolding lookup
owed-known id [] f d = refl
owed-known id ((k, info) ∷ m) f d =
    ground (arith, owed-known id m f.1 d.1, owed_fresh id m f.1, f.0.keyed)

module _ (ip_equal : Bytes → Bytes → Bool)
    (visit : List (ℕ × ConnectionInfo) → List (ℕ × ConnectionInfo))
    (sampled : List Error → Error) where
  abbrev Balanced : ℕ → RecordedTracker → ℕ → RecordedTracker → Type 0
  Balanced id c gain c' = reports id c'.next + held id c' ≡ reports id c.next + held id c + gain

  process_tcp-Balanced :
      (id : ℕ) (c : RecordedTracker) (t : Traffic) (tcp : TcpPacketMetadata)
      → t.content ≡ tcp_packet tcp
      → Balanced id c
          (opened_by id c (tcp_packet tcp))
          (process_tcp ip_equal recorder visit sampled c t tcp).0
  unfolding process_tcp forward
  process_tcp-Balanced id c t tcp e =
      if_cases (λ (r : RecordedTracker × Option Error). Balanced id c gain r.0) c.closed
        (λ shut. ground arith)
        λ open_.
          option_cases (λ (r : RecordedTracker × Option Error). Balanced id c gain r.0)
            (lookup tcp.connection_id c.active_connections)
            (λ missing.
              if_cases (λ (r : RecordedTracker × Option Error). Balanced id c gain r.0)
                (is_spurious tcp) (λ ignored. ground arith)
                λ kept. ground (
                  arith,
                  lookup-insert tcp.connection_id id (new_info t tcp) c.active_connections,
                  nat_beq_iff tcp.connection_id id,
                ))
            (λ info found. ground (
              arith,
              lookup-insert tcp.connection_id id (augment_with ip_equal info t tcp)
                  c.active_connections,
              nat_beq_iff tcp.connection_id id,
            ))
    where
      gain : ℕ
      gain = opened_by id c (tcp_packet tcp)

  flush_connection-Balanced :
      (id : ℕ) (c : RecordedTracker) (k : ℕ)
      → Inv c
      → Balanced id c 0 (flush_connection ip_equal recorder visit sampled c k).0
  unfolding flush_connection summary
  flush_connection-Balanced id c k h =
      option_cases (λ (r : RecordedTracker × Bool × Option Error). Balanced id c 0 r.0)
        (lookup k c.active_connections) (λ _. omega arith)
        λ info found. ground (
          arith,
          lookup-delete k id c.active_connections,
          (lookup-All IsFiled k c.active_connections h.filed found).keyed,
          nat_beq_iff k id,
        )

  flush_all-reports :
      (id : ℕ) (log : List Traffic) (errs : List Error) (m : List (ℕ × ConnectionInfo))
      → reports id (flush_all ip_equal recorder visit sampled log errs m).0
        ≡ reports id log + owed id m
  unfolding flush_all summary
  flush_all-reports id log errs [] = omega arith
  flush_all-reports id log errs ((k, info) ∷ m) =
      flush_all-reports id (summary info ∷ log) errs m ∙ omega arith

  -- Anything but TCP packet metadata is handed on.
  process_content-Balanced :
      (id : ℕ) (c : RecordedTracker) (t : Traffic) (k : Content)
      → t.content ≡ k
      → Balanced id c
          (opened_by id c k + is_report id k)
          (process_content ip_equal recorder visit sampled c t k).0
  unfolding process_content forward
  process_content-Balanced id c t (tcp_packet tcp) e =
      omega (arith, process_tcp-Balanced id c t tcp e)
  process_content-Balanced id c t _ e = rw e (omega arith)

  -- How often a history opens `id`, and how many reports on it come in from upstream.
  pub opened_over : ℕ → RecordedTracker → List Event → ℕ
  opened_over id c [] = 0
  opened_over id c (e ∷ es) =
      opened id c e + opened_over id (step ip_equal recorder visit sampled c e) es

  -- `visit` goes through every entry of the map once.
  module _ (visit-perm : (m : List (ℕ × ConnectionInfo)) → Perm (visit m) m) where
    close-Balanced :
        (id : ℕ) (c : RecordedTracker)
        → Inv c
        → Balanced id c 0 (close ip_equal recorder visit sampled c).0
    unfolding close lookup
    close-Balanced id c h = omega (
      arith,
      flush_all-reports id c.next [] (visit c.active_connections),
      sum_by-perm (λ entry. one_if (entry.1.tcp_metadata.connection_id == id))
          (visit-perm c.active_connections),
      owed-known id c.active_connections h.filed h.distinct,
    )

    step-Balanced :
        (id : ℕ) (c : RecordedTracker) (e : Event)
        → Inv c
        → Balanced id c (opened id c e + passed id e) (step ip_equal recorder visit sampled c e)
    unfolding step process
    step-Balanced id c (arrives t) h = process_content-Balanced id c t t.content refl
    step-Balanced id c (expires k) h = flush_connection-Balanced id c k h
    step-Balanced id c closes h = close-Balanced id c h

    run-Balanced :
        (id : ℕ) (c : RecordedTracker) (es : List Event)
        → Inv c
        → Balanced id c
            (opened_over id c es + sum_by (passed id) es)
            (run ip_equal recorder visit sampled c es)
    unfolding run opened_over
    run-Balanced id c [] h = omega arith
    run-Balanced id c (e ∷ es) h = omega (
      arith,
      step-Balanced id c e h,
      run-Balanced id (step ip_equal recorder visit sampled c e) es
          (step-Inv ip_equal recorder visit sampled c e h),
    )

    -- If `visit` goes through every entry of the map once, then at any moment of any history of a
    -- new tracker with a downstream that only records, the reports on a connection that went
    -- downstream, and the one still held, are as many as the times that the connection was opened,
    -- and the reports on it that came in from upstream.
    pub reports-run :
        (id : ℕ) (es : List Event)
        → let start = new_tracker ip_equal recorder visit sampled [] in
          let c = run ip_equal recorder visit sampled start es in
          reports id c.next + held id c ≡ opened_over id start es + sum_by (passed id) es
    unfolding new_tracker lookup
    reports-run id es = omega (
      arith,
      run-Balanced id (new_tracker ip_equal recorder visit sampled []) es
          (record { distinct = tt; filed = tt; empty_when_closed = λ _. refl }),
    )

    -- If `visit` goes through every entry of the map once, then closing a new tracker after any
    -- history of packets, timeouts and closes leaves downstream with as many reports on a
    -- connection as the times that it was opened, and the reports on it that came from upstream:
    -- each opening has been reported exactly once.
    pub reports-run_closed :
        (id : ℕ) (es : List Event)
        → let start = new_tracker ip_equal recorder visit sampled [] in
          let c =
            step ip_equal recorder visit sampled
              (run ip_equal recorder visit sampled start es)
              closes in
          reports id c.next ≡ opened_over id start es + sum_by (passed id) es
    unfolding step close lookup
    reports-run_closed id es = omega (
      arith,
      reports-run id es,
      close-Balanced id
          (run ip_equal recorder visit sampled (new_tracker ip_equal recorder visit sampled []) es)
          (run-new_tracker-Inv ip_equal recorder visit sampled [] es),
    )
