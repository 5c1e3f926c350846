-- ===== src/Tcp/Tests.antt =====
-- tcp_conn_tracker: a connection that is opened, answered and closed.
use postman_insights_agent.Prelude.{
  ℕ, ◌≡◌, ◌+◌, Bool, true, false, List, [], ◌∷◌, sum_by, ◌==◌, nat_eq,
}
use mathlib.Core.List.Perm
use postman_insights_agent.Prelude.Text.{bytes_eq}
use postman_insights_agent.Traffic.{Bytes, Error, Traffic, tcp_packet, TcpPacketMetadata, recorder}
use postman_insights_agent.Tcp.{
  ConnectionInfo, Event, arrives, expires, closes, new_tracker, new_info, run, step,
}
use postman_insights_agent.Tcp.Inference.{
  Packet, augment_all, end_after, augment_all-end_state, augment_all-initiator, decided, first_syn,
}
use postman_insights_agent.Tcp.Invariant.{Inv, run-new_tracker-Inv}
use postman_insights_agent.Tcp.Ledger.{reports, opened_over, passed, reports-run_closed}

abbrev ip_equal : Bytes → Bytes → Bool
ip_equal a b = a == b

abbrev visit : List (ℕ × ConnectionInfo) → List (ℕ × ConnectionInfo)
visit m = m

abbrev sampled : List Error → Error
sampled errs = "sampled"

abbrev syn : TcpPacketMetadata
syn = record {
  connection_id = 7;
  syn = true;
  ack = false;
  fin = false;
  rst = false;
  payload_length_bytes = 0;
}

abbrev syn_ack : TcpPacketMetadata
syn_ack = record syn { ack = true }

abbrev fin_ack : TcpPacketMetadata
fin_ack = record syn { syn = false; ack = true; fin = true }

abbrev sent : TcpPacketMetadata → ℕ → Traffic
sent tcp time = record {
  net_interface = "eth0";
  src_ip = 10 ∷ 1 ∷ [];
  src_port = 4000;
  dst_ip = 10 ∷ 2 ∷ [];
  dst_port = 80;
  content = tcp_packet tcp;
  observation_time = time;
  final_packet_time = time;
}

abbrev answered : TcpPacketMetadata → ℕ → Traffic
answered tcp time = record (sent tcp time) {
  src_ip = 10 ∷ 2 ∷ [];
  src_port = 80;
  dst_ip = 10 ∷ 1 ∷ [];
  dst_port = 4000;
}

abbrev packets : List Packet
packets = (sent syn 3, syn) ∷ (answered syn_ack 4, syn_ack) ∷ (sent fin_ack 9, fin_ack) ∷ []

-- The timer fires in between, so that the connection is opened twice.
abbrev history : List Event
history =
    arrives (sent syn 3) ∷ arrives (answered syn_ack 4) ∷ expires 7 ∷ arrives (sent fin_ack 9) ∷ []

abbrev info : ConnectionInfo
info = new_info (sent syn 3) syn

reports-run_closed_example :
    let start = new_tracker ip_equal recorder visit sampled [] in
    let c =
      step ip_equal recorder visit sampled
        (run ip_equal recorder visit sampled start history)
        closes in
    reports 7 c.next
    ≡ opened_over ip_equal visit sampled 7 start history + sum_by (passed 7) history
reports-run_closed_example = reports-run_closed ip_equal visit sampled (λ m. Perm.refl m) 7 history

run-new_tracker-Inv_example :
    Inv
      (run ip_equal recorder visit sampled (new_tracker ip_equal recorder visit sampled []) history)
run-new_tracker-Inv_example = run-new_tracker-Inv ip_equal recorder visit sampled [] history

augment_all-end_state_example :
    (augment_all ip_equal info packets).tcp_metadata.end_state
    ≡ end_after false true info.tcp_metadata.end_state
augment_all-end_state_example = augment_all-end_state ip_equal info packets

augment_all-initiator_example :
    (augment_all ip_equal info packets).tcp_metadata.initiator
    ≡ decided ip_equal info (first_syn packets)
unfolding new_info
augment_all-initiator_example = augment_all-initiator ip_equal info packets
