-- ===== src/Witnesses.antt =====
-- The witnesses of trace/backend_collector.go and learn/learn.go: one HTTP request, one response, or
-- a pair of them. What a witness holds of its arguments and responses is a protobuf that is only
-- read through getters, so its type is a parameter. ParseHTTP gives every witness a method with HTTP
-- metadata, which the merge keeps: a missing method or missing metadata does not occur here.
use postman_insights_agent.Prelude.{
  ℕ, ◌-◌, ◌/◌, String, Bool, true, false, ◌||◌, Option, none, some, List, string_eq, nat_eq, ◌==◌,
  leb, if◌then◌else◌,
}
use postman_insights_agent.Traffic.{Bytes, Traffic}

pub data Obfuscation : Type 0 where
  obfuscation_unset obfuscation_none zero_value : Obfuscation

-- In whole microseconds; the division by 1000.0 to a float of milliseconds is left out.
pub data Latency : Type 0 where
  unset : Latency
  after : ℕ → Latency
  before : ℕ → Latency

-- pb.HTTPMethodMeta
pub record HttpMeta : Type 0 where
  pub method : String
  pub path_template : String
  pub host : String
  pub processing_latency : Latency
  pub obfuscation : Obfuscation

-- pb.Method; a nil map is `none`.
pub record Method (Data : Type 0) : Type 0 where
  pub args : Option (List (String × Data))
  pub responses : Option (List (String × Data))
  pub meta : HttpMeta

-- learn.UnknownHTTPMethodMeta
abbrev pub unknown_http_method_meta : HttpMeta
unknown_http_method_meta = record {
  method = "";
  path_template = "";
  host = "";
  processing_latency = unset;
  obfuscation = obfuscation_unset;
}

-- trace.witnessWithInfo; its mutex is held by the steps that need it.
pub record WitnessWithInfo (Data : Type 0) : Type 0 where
  pub net_interface : String
  pub src_ip : Bytes
  pub src_port : ℕ
  pub dst_ip : Bytes
  pub dst_port : ℕ
  pub observation_time : ℕ
  pub final_packet_time : ℕ
  pub id : ℕ
  pub is_request : Bool
  pub witness_flushed : Bool
  pub witness : Method Data

-- Go's == on bool
abbrev same_kind : Bool → Bool → Bool
same_kind true b = b
same_kind false b = if b then false else true

-- Microseconds of responseStart.Sub(requestEnd), which rounds towards zero.
abbrev pub latency_of : ℕ → ℕ → Latency
latency_of request_end response_start =
    if leb request_end response_start
    then after ((response_start - request_end) / 1000)
    else before ((request_end - response_start) / 1000)

module _ {Data : Type 0} where
  unfoldable pub take_half : Method Data → Method Data → Method Data
  take_half dst src = elim dst.args [
    | none ↦ record dst { args = src.args }
    | some _ ↦ record dst { responses = src.responses }
  ]

  -- learn.MergeWitness
  unfoldable pub merge_witness : Method Data → Method Data → Method Data
  unfolding take_half
  merge_witness dst src =
      let merged = take_half dst src in
      if merged.meta.method == "" then record merged { meta = src.meta } else merged

  unfoldable pub with_latency : WitnessWithInfo Data → Latency → WitnessWithInfo Data
  with_latency w latency = record w {
    witness = record w.witness { meta = record w.witness.meta { processing_latency = latency } };
  }

  -- A time is zero when it is Go's zero time.
  unfoldable pub compute_processing_latency :
      WitnessWithInfo Data → Bool → Traffic → WitnessWithInfo Data
  unfolding with_latency
  compute_processing_latency w is_request t =
      let request_end = if w.is_request then w.final_packet_time else t.final_packet_time in
      let response_start = if w.is_request then t.observation_time else w.observation_time in
      if same_kind w.is_request is_request
      then w
      else if request_end == 0 || response_start == 0
      then w
      else with_latency w (latency_of request_end response_start)
