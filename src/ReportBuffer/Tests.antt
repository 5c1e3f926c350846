-- ===== src/ReportBuffer/Tests.antt =====
-- trace/report_buffer.go: two upload requests, and a limit of two bytes on a witness.
use postman_insights_agent.Prelude.{
  ℕ, zero, suc, ◌≡◌, true, false, none, some, List, [], ◌∷◌, length,
}
use postman_insights_agent.Witnesses.{Method, WitnessWithInfo, unknown_http_method_meta}
use postman_insights_agent.Backend.Reports.{witness_report}
use postman_insights_agent.ReportBuffer.{
  BufferSetup, Event, adds, flushes, ends, run, new_report_buffer,
}
use postman_insights_agent.ReportBuffer.Rotation.{requests}
use postman_insights_agent.ReportBuffer.Histories.{AllFit, run-fits}

-- The data are sizes, and marshalled to as many zeros.
abbrev zeros : ℕ → List ℕ
zeros zero = []
zeros (suc n) = 0 ∷ zeros n

abbrev size : Method ℕ → ℕ
size m = elim m.args [ none ↦ 0 | some args ↦ length args ]

abbrev setup : BufferSetup ℕ
setup = record {
  hash_witness = λ _. "";
  marshal = λ m. some (zeros (size m));
  encode_base64 = λ b. b;
  size_in_bytes = λ r. length r.witnesses;
  zero_all_primitives = λ m. record m { args = none };
  max_size_bytes = 10;
  max_witness_size_bytes = some 2;
  witnesses_have_payloads = true;
}

abbrev large : WitnessWithInfo ℕ
large = record {
  net_interface = "eth0";
  src_ip = [];
  src_port = 4000;
  dst_ip = [];
  dst_port = 80;
  observation_time = 10;
  final_packet_time = 20;
  id = 1;
  is_request = true;
  witness_flushed = false;
  witness = record {
    args = some (("a", 1) ∷ ("b", 2) ∷ ("c", 3) ∷ []);
    responses = none;
    meta = unknown_http_method_meta;
  };
}

abbrev history : List (Event ℕ)
history =
    adds (witness_report 0 large)
    ∷ flushes
    ∷ adds (witness_report 1 large)
    ∷ flushes
    ∷ ends 0 true
    ∷ []

run-fits_example :
    let buf = run setup (new_report_buffer 2) history in (requests buf ≡ 2) × AllFit setup buf
run-fits_example = run-fits setup 2 history
