-- ===== src/Tls/Tests.antt =====
-- tls_conn_tracker: a handshake that is completed, and one that is not. The library notes each
-- message that it has seen, and refuses one that it has seen already.
use postman_insights_agent.Prelude.{
  ℕ, refl, Bool, true, false, ◌&&◌, Option, none, some, List, [], ◌∷◌, arith, any, if◌then◌else◌,
}
use postman_insights_agent.Traffic.{
  Error, TlsHandshakeMetadata, Content, tls_client_hello, tls_server_hello, Traffic, recorder,
}
use postman_insights_agent.Tls.{HandshakeLibrary, Event, arrives, expires, closes, new_tracker, run}
use postman_insights_agent.Tls.Handshakes.{IsHandshakeLibrary, Inv, run-new_handshakes-Inv}

abbrev seen_client : TlsHandshakeMetadata → Bool
seen_client m = any (λ b. b) m.unexported

abbrev seen_server : TlsHandshakeMetadata → Bool
seen_server m = any (λ b. if b then false else true) m.unexported

abbrev note : Bool → Bool → TlsHandshakeMetadata → TlsHandshakeMetadata × Option Error
note known message m =
    if known
    then (m, some "duplicate hello")
    else (record m { unexported = message ∷ m.unexported }, none)

abbrev lib : HandshakeLibrary
lib = record {
  with_connection_id = λ id. record {
    connection_id = id;
    sni_hostname = none;
    selected_protocol = none;
    subject_alternative_names = [];
    version = 771;
    supported_protocols = [];
    unexported = [];
  };
  add_client_hello = λ m h. note (seen_client m) true m;
  add_server_hello = λ m h. note (seen_server m) false m;
  handshake_complete = λ m. seen_client m && seen_server m;
}

lib-IsHandshakeLibrary : IsHandshakeLibrary lib
lib-IsHandshakeLibrary = record {
  new_id = λ id. refl;
  new_incomplete = λ id. refl;
  client_id = λ m h. ground arith;
  server_id = λ m h. ground arith;
  client_refused = λ m h r. ground arith;
  server_refused = λ m h r. ground arith;
}

abbrev sent : Content → Traffic
sent c = record {
  net_interface = "eth0";
  src_ip = [];
  src_port = 4000;
  dst_ip = [];
  dst_port = 443;
  content = c;
  observation_time = 5;
  final_packet_time = 5;
}

abbrev client_hello : ℕ → Event
client_hello id =
    arrives (sent (tls_client_hello (record { connection_id = id; hostname = none; body = [] })))

abbrev server_hello : ℕ → Event
server_hello id =
    arrives (sent (tls_server_hello (record { connection_id = id; dns_names = []; body = [] })))

abbrev history : List Event
history =
    client_hello 1 ∷ client_hello 2 ∷ server_hello 1 ∷ client_hello 2 ∷ expires 2 ∷ closes ∷ []

run-new_handshakes-Inv_example : Inv lib (run lib recorder (new_tracker lib recorder []) history)
run-new_handshakes-Inv_example =
    run-new_handshakes-Inv lib lib-IsHandshakeLibrary history (tt, (tt, (tt, (tt, (tt, (tt, tt))))))
