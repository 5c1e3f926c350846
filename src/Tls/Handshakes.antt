-- ===== src/Tls/Handshakes.antt =====
-- tls_conn_tracker: only unfinished handshakes are held, and only finished ones are reported.
use postman_insights_agent.Prelude.{
  ℕ, ◌≡◌, refl, ◌≢◌, ◌∙◌, true, false, Option, none, some, List, [], ◌∷◌, All, nat_eq, if_cases,
  option_cases,
}
use postman_insights_agent.Prelude.Dict.{
  lookup, insert, delete, Distinct, insert-Distinct, delete-Distinct, insert-All, delete-All,
  lookup-All, lookup-insert, delete-insert, beq_refl,
}
use postman_insights_agent.Traffic.{
  Error, TlsClientHello, TlsServerHello, TlsHandshakeMetadata, Content, tls_client_hello,
  tls_server_hello, tls_handshake, Traffic, recorder,
}
use postman_insights_agent.Tls.{
  HandshakeLibrary, ConnectionInfo, Tracker, Event, arrives, expires, closes, summary, new_tracker,
  ensure_connection, flush_connection, after_hello, process_client_hello, process_server_hello,
  process_content, process, expire, close, step, run, forward,
}

-- What the tracker relies on: a new handshake is not complete, adding a hello keeps the
-- identifier, and a hello that is refused does not complete a handshake.
pub record IsHandshakeLibrary (lib : HandshakeLibrary) : Type 0 where
  pub new_id : (id : ℕ) → (lib.with_connection_id id).connection_id ≡ id
  pub new_incomplete : (id : ℕ) → lib.handshake_complete (lib.with_connection_id id) ≡ false
  pub client_id :
      (m : TlsHandshakeMetadata) (h : TlsClientHello)
      → (lib.add_client_hello m h).0.connection_id ≡ m.connection_id
  pub server_id :
      (m : TlsHandshakeMetadata) (h : TlsServerHello)
      → (lib.add_server_hello m h).0.connection_id ≡ m.connection_id
  pub client_refused :
      (m : TlsHandshakeMetadata) (h : TlsClientHello)
      → (lib.add_client_hello m h).1 ≢ none
      → lib.handshake_complete (lib.add_client_hello m h).0 ≡ lib.handshake_complete m
  pub server_refused :
      (m : TlsHandshakeMetadata) (h : TlsServerHello)
      → (lib.add_server_hello m h).1 ≢ none
      → lib.handshake_complete (lib.add_server_hello m h).0 ≡ lib.handshake_complete m

-- An entry is filed under its identifier, and its handshake is not complete.
pub record IsPending (lib : HandshakeLibrary) (entry : ℕ × ConnectionInfo) : Type 0 where
  pub keyed : entry.1.handshake_metadata.connection_id ≡ entry.0
  pub incomplete : lib.handshake_complete entry.1.handshake_metadata ≡ false

-- A report of the tracker's own: its handshake is complete.
abbrev pub IsFinished : HandshakeLibrary → Content → Type 0
IsFinished lib (tls_handshake m) = lib.handshake_complete m ≡ true
IsFinished lib _ = Unit {0}

pub record Inv (lib : HandshakeLibrary) (c : Tracker (List Traffic)) : Type 0 where
  pub distinct : Distinct c.active_connections
  pub pending : All (IsPending lib) c.active_connections
  pub empty_when_closed : c.closed ≡ true → c.active_connections ≡ []
  pub finished : All (λ t. IsFinished lib t.content) c.next

delete-nil : (k : ℕ) → delete {V = ConnectionInfo} k [] ≡ []
unfolding delete
delete-nil k = refl

module _ (lib : HandshakeLibrary) (laws : IsHandshakeLibrary lib) where
  abbrev Kept : Tracker (List Traffic) × Option Error → Type 0
  Kept r = Inv lib r.0

  insert-Inv :
      (c : Tracker (List Traffic)) (k : ℕ) (info : ConnectionInfo)
      → c.closed ≡ false
      → IsPending lib (k, info)
      → Inv lib c
      → Inv lib (record c { active_connections = insert k info c.active_connections })
  insert-Inv c k info o f h = record {
    distinct = insert-Distinct k info c.active_connections h.distinct;
    pending = insert-All (IsPending lib) k info c.active_connections f h.pending;
    empty_when_closed = λ e. cc;
    finished = h.finished;
  }

  ensure_connection-IsPending :
      (c : Tracker (List Traffic)) (id : ℕ) (t : Traffic)
      → Inv lib c
      → IsPending lib (id, ensure_connection lib recorder c id t)
  unfolding ensure_connection
  ensure_connection-IsPending c id t h =
      option_cases (λ info. IsPending lib (id, info)) (lookup id c.active_connections)
        (λ _. record { keyed = laws.new_id id; incomplete = laws.new_incomplete id })
        (λ info found. lookup-All (IsPending lib) id c.active_connections h.pending found)

  -- The entry that was just stored is the one that is reported and taken out.
  flush_connection-insert :
      (c : Tracker (List Traffic)) (id : ℕ) (info : ConnectionInfo)
      → let c' = record c { active_connections = insert id info c.active_connections } in
        flush_connection lib recorder c' id ≡ (
          record c {
            next = summary info ∷ c.next;
            active_connections = delete id c.active_connections;
          },
          true,
          none,
        )
  unfolding flush_connection
  flush_connection-insert c id info =
      rw (lookup-insert id id info c.active_connections, beq_refl id, flush_connection)
        (rw (delete-insert id info c.active_connections))

  flushed-Inv :
      (c : Tracker (List Traffic)) (id : ℕ) (info : ConnectionInfo)
      → c.closed ≡ false
      → lib.handshake_complete info.handshake_metadata ≡ true
      → Inv lib c
      → Inv lib (record c {
        next = summary info ∷ c.next;
        active_connections = delete id c.active_connections;
      })
  unfolding summary
  flushed-Inv c id info o f h = record {
    distinct = delete-Distinct id c.active_connections h.distinct;
    pending = delete-All (IsPending lib) id c.active_connections h.pending;
    empty_when_closed = λ e. cc;
    finished = (f, h.finished);
  }

  after_hello-Inv :
      (c : Tracker (List Traffic)) (id : ℕ) (info : ConnectionInfo)
      (added : TlsHandshakeMetadata × Option Error)
      → c.closed ≡ false
      → added.0.connection_id ≡ id
      → (added.1 ≢ none → lib.handshake_complete added.0 ≡ false)
      → Inv lib c
      → Inv lib (after_hello lib recorder c id info added).0
  unfolding after_hello
  after_hello-Inv c id info (m, some e) o k w h =
      insert-Inv c id (record info { handshake_metadata = m }) o
        (record { keyed = k; incomplete = w (λ z. cc) }) h
  after_hello-Inv c id info (m, none) o k w h =
      if_cases Kept (lib.handshake_complete m)
        (λ done.
          rw (flush_connection-insert c id (record info { handshake_metadata = m }))
            (flushed-Inv c id (record info { handshake_metadata = m }) o done h))
        (λ more.
          insert-Inv c id (record info { handshake_metadata = m }) o
            (record { keyed = k; incomplete = more }) h)

  process_client_hello-Inv :
      (c : Tracker (List Traffic)) (t : Traffic) (tls : TlsClientHello)
      → Inv lib c
      → Inv lib (process_client_hello lib recorder c t tls).0
  unfolding process_client_hello
  process_client_hello-Inv c t tls h =
      if_cases Kept c.closed (λ _. h)
        λ open_.
          let info = ensure_connection lib recorder c tls.connection_id t in
          let p = ensure_connection-IsPending c tls.connection_id t h in
          after_hello-Inv c tls.connection_id info
            (lib.add_client_hello info.handshake_metadata tls) open_
            (laws.client_id info.handshake_metadata tls ∙ p.keyed)
            (λ refused. laws.client_refused info.handshake_metadata tls refused ∙ p.incomplete) h

  process_server_hello-Inv :
      (c : Tracker (List Traffic)) (t : Traffic) (tls : TlsServerHello)
      → Inv lib c
      → Inv lib (process_server_hello lib recorder c t tls).0
  unfolding process_server_hello
  process_server_hello-Inv c t tls h =
      if_cases Kept c.closed (λ _. h)
        λ open_.
          let info = ensure_connection lib recorder c tls.connection_id t in
          let p = ensure_connection-IsPending c tls.connection_id t h in
          after_hello-Inv c tls.connection_id info
            (lib.add_server_hello info.handshake_metadata tls) open_
            (laws.server_id info.handshake_metadata tls ∙ p.keyed)
            (λ refused. laws.server_refused info.handshake_metadata tls refused ∙ p.incomplete) h

  forward-Inv :
      (c : Tracker (List Traffic)) (t : Traffic)
      → IsFinished lib t.content
      → Inv lib c
      → Inv lib (forward lib recorder c t).0
  unfolding forward
  forward-Inv c t f h = record {
    distinct = h.distinct;
    pending = h.pending;
    empty_when_closed = h.empty_when_closed;
    finished = (f, h.finished);
  }

  process_content-Inv :
      (c : Tracker (List Traffic)) (t : Traffic) (k : Content)
      → t.content ≡ k
      → IsFinished lib k
      → Inv lib c
      → Inv lib (process_content lib recorder c t k).0
  unfolding process_content
  process_content-Inv c t (tls_client_hello tls) e f h = process_client_hello-Inv c t tls h
  process_content-Inv c t (tls_server_hello tls) e f h = process_server_hello-Inv c t tls h
  process_content-Inv c t _ e f h = forward-Inv c t (rw e f) h

  -- Upstream reports nothing unfinished itself.
  abbrev pub IsFinishedEvent : Event → Type 0
  IsFinishedEvent (arrives t) = IsFinished lib t.content
  IsFinishedEvent (expires _) = Unit {0}
  IsFinishedEvent closes = Unit {0}

  step-Inv :
      (c : Tracker (List Traffic)) (e : Event)
      → IsFinishedEvent e
      → Inv lib c
      → Inv lib (step lib recorder c e)
  unfolding step process expire close
  step-Inv c (arrives t) f h = process_content-Inv c t t.content refl f h
  step-Inv c (expires id) f h = record {
    distinct = delete-Distinct id c.active_connections h.distinct;
    pending = delete-All (IsPending lib) id c.active_connections h.pending;
    empty_when_closed = λ e. rw (h.empty_when_closed e) (delete-nil id);
    finished = h.finished;
  }
  step-Inv c closes f h = record {
    distinct = tt;
    pending = tt;
    empty_when_closed = λ _. refl;
    finished = h.finished;
  }

  run-Inv :
      (c : Tracker (List Traffic)) (es : List Event)
      → All IsFinishedEvent es
      → Inv lib c
      → Inv lib (run lib recorder c es)
  unfolding run
  run-Inv c [] f h = h
  run-Inv c (e ∷ es) f h = run-Inv (step lib recorder c e) es f.1 (step-Inv c e f.0 h)

  -- If the library keeps its laws, then after any history in which upstream hands on no unfinished report itself: only unfinished
  -- handshakes are held, each once and under its own identifier, none after the close, and every
  -- handshake reported downstream is complete.
  pub run-new_handshakes-Inv :
      (es : List Event)
      → All IsFinishedEvent es
      → Inv lib (run lib recorder (new_tracker lib recorder []) es)
  unfolding new_tracker
  run-new_handshakes-Inv es f =
      run-Inv _ es f
        (record { distinct = tt; pending = tt; empty_when_closed = λ _. refl; finished = tt })
