-- ===== src/Tcp/Invariant.antt =====
-- tcp_conn_tracker: what holds of the tracker between two calls.
use postman_insights_agent.Prelude.{
  ℕ, ◌≤◌, ◌≡◌, refl, Bool, true, false, Option, List, [], ◌∷◌, arith, All, nat_eq, if_cases,
  option_cases,
}
use postman_insights_agent.Prelude.Dict.{
  lookup, insert, delete, Distinct, insert-Distinct, delete-Distinct, insert-All, delete-All,
  lookup-All,
}
use postman_insights_agent.Traffic.{
  Bytes, Error, Traffic, Content, tcp_packet, TcpPacketMetadata, Collector,
}
use postman_insights_agent.Tcp.{
  ConnectionInfo, Tracker, Event, arrives, expires, closes, new_info, augment_with, process_tcp,
  process_content, process, flush_connection, close, step, run, forward, new_tracker,
}

-- An entry is filed under its own identifier, and was first seen no later than it was last seen.
pub record IsFiled (entry : ℕ × ConnectionInfo) : Type 0 where
  pub keyed : entry.1.tcp_metadata.connection_id ≡ entry.0
  pub ordered : entry.1.first_observation_time ≤ entry.1.last_observation_time

pub record Inv {S : Type 0} (c : Tracker S) : Type 0 where
  pub distinct : Distinct c.active_connections
  pub filed : All IsFiled c.active_connections
  pub empty_when_closed : c.closed ≡ true → c.active_connections ≡ []

new_info-IsFiled :
    (t : Traffic) (tcp : TcpPacketMetadata) → IsFiled (tcp.connection_id, new_info t tcp)
unfolding new_info
new_info-IsFiled t tcp = ground arith

augment_with-IsFiled :
    (q : Bytes → Bytes → Bool) (k : ℕ) (info : ConnectionInfo) (t : Traffic)
    (tcp : TcpPacketMetadata)
    → IsFiled (k, info)
    → IsFiled (k, augment_with q info t tcp)
unfolding augment_with
augment_with-IsFiled q k info t tcp h = ground arith

insert-Inv :
    {S : Type 0} (c : Tracker S) (s : S) (k : ℕ) (info : ConnectionInfo)
    → c.closed ≡ false
    → IsFiled (k, info)
    → Inv c
    → Inv (record c { next = s; active_connections = insert k info c.active_connections })
insert-Inv c s k info o f h = record {
  distinct = insert-Distinct k info c.active_connections h.distinct;
  filed = insert-All IsFiled k info c.active_connections f h.filed;
  empty_when_closed = λ e. cc;
}

delete-nil : (k : ℕ) → delete {V = ConnectionInfo} k [] ≡ []
unfolding delete
delete-nil k = refl

forward-Inv :
    (next_collector : Collector) (c : Tracker next_collector.State) (t : Traffic)
    → Inv c
    → Inv (forward next_collector c t).0
unfolding forward
forward-Inv next_collector c t h = ground arith

module _ (ip_equal : Bytes → Bytes → Bool) (next_collector : Collector)
    (visit : List (ℕ × ConnectionInfo) → List (ℕ × ConnectionInfo))
    (sampled : List Error → Error) where
  abbrev Kept : Tracker next_collector.State × Option Error → Type 0
  Kept r = Inv r.0

  process_tcp-Inv :
      (c : Tracker next_collector.State) (t : Traffic) (tcp : TcpPacketMetadata)
      → Inv c
      → Inv (process_tcp ip_equal next_collector visit sampled c t tcp).0
  unfolding process_tcp
  process_tcp-Inv c t tcp h =
      if_cases Kept c.closed (λ _. h)
        λ open_.
          option_cases Kept (lookup tcp.connection_id c.active_connections)
            (λ _.
              if_cases Kept _ (λ _. h)
                λ _. insert-Inv c c.next tcp.connection_id _ open_ (new_info-IsFiled t tcp) h)
            (λ info found. forward-Inv next_collector _ t (
              insert-Inv c c.next tcp.connection_id _ open_
                (augment_with-IsFiled ip_equal tcp.connection_id info t tcp
                  (lookup-All IsFiled tcp.connection_id c.active_connections h.filed found))
                h))

  process_content-Inv :
      (c : Tracker next_collector.State) (t : Traffic) (k : Content)
      → Inv c
      → Inv (process_content ip_equal next_collector visit sampled c t k).0
  unfolding process_content
  process_content-Inv c t (tcp_packet tcp) h = process_tcp-Inv c t tcp h
  process_content-Inv c t _ h = forward-Inv next_collector c t h

  flush_connection-Inv :
      (c : Tracker next_collector.State) (k : ℕ)
      → Inv c
      → Inv (flush_connection ip_equal next_collector visit sampled c k).0
  unfolding flush_connection
  flush_connection-Inv c k h =
      option_cases (λ (r : Tracker next_collector.State × Bool × Option Error). Inv r.0)
        (lookup k c.active_connections) (λ _. h)
        λ info _. record {
          distinct = delete-Distinct k c.active_connections h.distinct;
          filed = delete-All IsFiled k c.active_connections h.filed;
          empty_when_closed = λ e. rw (h.empty_when_closed e) (delete-nil k);
        }

  -- Whatever happens, every entry keeps its own key, no key has two, the times stay ordered, and
  -- a closed tracker has no entry.
  pub step-Inv :
      (c : Tracker next_collector.State) (e : Event)
      → Inv c
      → Inv (step ip_equal next_collector visit sampled c e)
  unfolding step process close
  step-Inv c (arrives t) h = process_content-Inv c t t.content h
  step-Inv c (expires k) h = flush_connection-Inv c k h
  step-Inv c closes h = record { distinct = tt; filed = tt; empty_when_closed = λ _. refl }

  run-Inv :
      (c : Tracker next_collector.State) (es : List Event)
      → Inv c
      → Inv (run ip_equal next_collector visit sampled c es)
  unfolding run
  run-Inv c [] h = h
  run-Inv c (e ∷ es) h =
      run-Inv (step ip_equal next_collector visit sampled c e) es (step-Inv c e h)

  -- After any history of a new tracker: every entry is filed under its own identifier, no identifier
  -- has two entries, each was first seen no later than it was last seen, and a closed tracker has
  -- no entries.
  pub run-new_tracker-Inv :
      (s : next_collector.State) (es : List Event)
      → Inv (
          run ip_equal next_collector visit sampled
            (new_tracker ip_equal next_collector visit sampled s)
            es)
  unfolding new_tracker
  run-new_tracker-Inv s es =
      run-Inv _ es (record { distinct = tt; filed = tt; empty_when_closed = λ _. refl })
