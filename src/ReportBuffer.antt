-- ===== src/ReportBuffer.antt =====
-- trace/report_buffer.go: the buffer behind the upload batch. It obfuscates or drops a witness that
-- is too large, and rotates a fixed number of upload requests. The batcher, a library, calls Add and
-- Flush one at a time; the goroutine of an upload is a separate step.
mod Limits
mod Rotation
mod Histories
mod Tests
use postman_insights_agent.Prelude.{
  ℕ, zero, suc, ◌+◌, String, Bool, true, false, not, ◌&&◌, Option, none, some, List, [], ◌∷◌, ltb,
  leb, if◌then◌else◌, length,
}
use postman_insights_agent.Counts.{PacketCounts, zero_counts}
use postman_insights_agent.Traffic.{Bytes}
use postman_insights_agent.Witnesses.{Obfuscation, zero_value, Method, WitnessWithInfo}
use postman_insights_agent.Backend.Reports.{
  TcpReport, TlsReport, RawReport, witness_report, tcp_report, tls_report,
}

-- kgxapi.WitnessReport; the direction is always Inbound.
pub record WitnessReport : Type 0 where
  pub origin_addr : Bytes
  pub origin_port : ℕ
  pub destination_addr : Bytes
  pub destination_port : ℕ
  pub witness_proto : Bytes
  pub client_witness_time : ℕ
  pub hash : String
  pub id : ℕ

-- kgxapi.UploadReportsRequest: what was added to it, the latest first.
pub record UploadRequest : Type 0 where
  pub witnesses : List WitnessReport
  pub tcp_connections : List TcpReport
  pub tls_handshakes : List TlsReport

abbrev pub empty_request : UploadRequest
empty_request = record { witnesses = []; tcp_connections = []; tls_handshakes = [] }

-- What is called of libraries (the hash of a witness, proto.Marshal, base64 and SizeInBytes), the
-- redactor's ZeroAllPrimitives, and the fields of the buffer that do not change.
pub record BufferSetup (Data : Type 0) : Type 0 where
  pub hash_witness : Method Data → String
  pub marshal : Method Data → Option Bytes
  pub encode_base64 : Bytes → Bytes
  pub size_in_bytes : UploadRequest → ℕ
  pub zero_all_primitives : Method Data → Method Data
  pub max_size_bytes : ℕ
  pub max_witness_size_bytes : Option ℕ
  pub witnesses_have_payloads : Bool

-- `free` counts the empty requests in the channel. A Flush that finds none waits for one and holds
-- up the batcher; its request is then among those that are uploaded. `finished` is what was uploaded,
-- and whether that succeeded.
pub record ReportBuffer : Type 0 where
  pub free : ℕ
  pub active_upload_report : UploadRequest
  pub waiting : Bool
  pub uploading : List UploadRequest
  pub finished : List (UploadRequest × Bool)
  pub packet_counts : List PacketCounts

abbrev is_zero_value : Obfuscation → Bool
is_zero_value zero_value = true
is_zero_value _ = false

abbrev is_empty : UploadRequest → Bool
is_empty r = elim r.witnesses [
  | _ ∷ _ ↦ false
  | [] ↦ elim r.tcp_connections [
    | _ ∷ _ ↦ false
    | [] ↦ elim r.tls_handshakes [ _ ∷ _ ↦ false | [] ↦ true ]
  ]
]

-- newReportBuffer, which waits for ever if there are no buffers.
pub new_report_buffer : ℕ → ReportBuffer
new_report_buffer zero = record {
  free = 0;
  active_upload_report = empty_request;
  waiting = true;
  uploading = [];
  finished = [];
  packet_counts = [];
}
new_report_buffer (suc n) = record {
  free = n;
  active_upload_report = empty_request;
  waiting = false;
  uploading = [];
  finished = [];
  packet_counts = [];
}

-- The count of a witness that is dropped.
pub oversized : {Data : Type 0} → WitnessWithInfo Data → PacketCounts
oversized w = record zero_counts {
  net_interface = w.net_interface;
  src_port = w.src_port;
  dst_port = w.dst_port;
  oversized_witnesses = 1;
}

pub add_witness_report : ReportBuffer → WitnessReport → ReportBuffer
add_witness_report buf report =
    let r = buf.active_upload_report in
    record buf { active_upload_report = record r { witnesses = report ∷ r.witnesses } }

module _ {Data : Type 0} (setup : BufferSetup Data) where
  pub to_report : WitnessWithInfo Data → Option WitnessReport
  to_report r = elim (setup.marshal r.witness) [
    | none ↦ none
    | some b ↦ some (record {
      origin_addr = r.src_ip;
      origin_port = r.src_port;
      destination_addr = r.dst_ip;
      destination_port = r.dst_port;
      witness_proto = setup.encode_base64 b;
      client_witness_time = r.observation_time;
      hash = setup.hash_witness r.witness;
      id = r.id;
    })
  ]

  pub too_large : WitnessReport → Bool
  too_large report = elim setup.max_witness_size_bytes [
    | none ↦ false
    | some max_size ↦ ltb max_size (length report.witness_proto)
  ]

  -- The end of addWitness: drop it, or add it.
  add_or_drop : ReportBuffer → WitnessWithInfo Data → WitnessReport → ReportBuffer
  unfolding add_witness_report
  add_or_drop buf w report =
      if too_large report
      then record buf { packet_counts = oversized w ∷ buf.packet_counts }
      else add_witness_report buf report

  -- A witness that is too large, obfuscated unless it is already.
  pub obfuscated : WitnessWithInfo Data → WitnessWithInfo Data
  obfuscated w =
      if is_zero_value w.witness.meta.obfuscation
      then w
      else record w { witness = setup.zero_all_primitives w.witness }

  pub add_witness : ReportBuffer → WitnessWithInfo Data → ReportBuffer
  unfolding add_or_drop
  add_witness buf w = elim (to_report w) [
    | none ↦ buf
    | some report ↦
        if setup.witnesses_have_payloads && too_large report
        then elim (to_report (obfuscated w)) [
          | none ↦ buf
          | some smaller ↦ add_or_drop buf (obfuscated w) smaller
        ]
        else add_or_drop buf w report
  ]

  pub add : ReportBuffer → RawReport Data → ReportBuffer
  unfolding add_witness
  add buf (witness_report _ w) = add_witness buf w
  add buf (tcp_report report) =
      let r = buf.active_upload_report in
      record buf {
        active_upload_report = record r { tcp_connections = report ∷ r.tcp_connections };
      }
  add buf (tls_report report) =
      let r = buf.active_upload_report in
      record buf { active_upload_report = record r { tls_handshakes = report ∷ r.tls_handshakes } }

  pub is_full : ReportBuffer → Bool
  is_full buf = leb setup.max_size_bytes (setup.size_in_bytes buf.active_upload_report)

-- Receives the next empty request, or waits for it.
receive : ReportBuffer → ReportBuffer
receive buf = elim buf.free [
  | zero ↦ record buf { waiting = true }
  | suc n ↦ record buf { free = n; active_upload_report = empty_request; waiting = false }
]

pub flush : ReportBuffer → ReportBuffer
unfolding receive
flush buf =
    if is_empty buf.active_upload_report
    then buf
    else receive (record buf { uploading = buf.active_upload_report ∷ buf.uploading })

-- The n-th upload, and the others.
pub take_out : ℕ → List UploadRequest → Option (UploadRequest × List UploadRequest)
take_out _ [] = none
take_out zero (r ∷ rs) = some (r, rs)
take_out (suc n) (r ∷ rs) = elim (take_out n rs) [
  | none ↦ none
  | some (found, rest) ↦ some (found, r ∷ rest)
]

-- The request that was uploaded is cleared and sent to the channel.
upload_back : ReportBuffer → UploadRequest → List UploadRequest → Bool → ReportBuffer
upload_back buf report rest ok = record buf {
  uploading = rest;
  finished = (report, ok) ∷ buf.finished;
  free = suc buf.free;
}

-- The goroutine of Flush comes to its end; a Flush may be waiting for its request.
pub upload_ends : ReportBuffer → ℕ → Bool → ReportBuffer
unfolding receive take_out upload_back
upload_ends buf n ok = elim (take_out n buf.uploading) [
  | none ↦ buf
  | some (report, rest) ↦
      if buf.waiting
      then receive (upload_back buf report rest ok)
      else upload_back buf report rest ok
]

pub data Event (Data : Type 0) : Type 0 where
  adds : RawReport Data → Event Data
  flushes : Event Data
  ends : ℕ → Bool → Event Data

module _ {Data : Type 0} (setup : BufferSetup Data) where
  -- The batcher's calls wait as long as a Flush does.
  pub step : ReportBuffer → Event Data → ReportBuffer
  step buf (adds raw) = if buf.waiting then buf else add setup buf raw
  step buf flushes = if buf.waiting then buf else flush buf
  step buf (ends n ok) = upload_ends buf n ok

  pub run : ReportBuffer → List (Event Data) → ReportBuffer
  run buf [] = buf
  run buf (e ∷ es) = run (step buf e) es
