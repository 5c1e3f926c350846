-- ===== src/Backend/Queue.antt =====
-- trace/backend_collector.go: the state of the collector, and queueUpload.
-- learn.PartialWitness
use postman_insights_agent.Prelude.{
  ℕ, ◌%◌, ◌^◌, String, Bool, true, false, ◌&&◌, Option, none, some, List, [], ◌∷◌, ◌++◌, nat_eq,
  if◌then◌else◌,
}
use postman_insights_agent.Prelude.Dict.{insert}
use postman_insights_agent.Traffic.{Error, Content, Traffic}
use postman_insights_agent.Witnesses.{
  Obfuscation, obfuscation_none, zero_value, Method, WitnessWithInfo, merge_witness,
  compute_processing_latency,
}
use postman_insights_agent.Backend.Capture.{CaptureLibrary, should_capture_payload}
use postman_insights_agent.Backend.Reports.{RawReport, witness_report}

pub record PartialWitness (Data : Type 0) : Type 0 where
  pub pair_key : ℕ
  pub witness : Method Data

-- What a goroutine that has read the cache does next. `remove` ends the flush of a witness and still
-- holds its lock.
pub data Job (Data : Type 0) : Type 0 where
  merge : ℕ → Method Data → Bool → Traffic → Job Data
  keep : ℕ → ℕ → Job Data
  flush : ℕ → ℕ → Job Data
  remove : ℕ → ℕ → Job Data

-- `objects` holds every witnessWithInfo made so far, by the number of its allocation; `reports` what
-- was added to the upload batch, the latest first.
pub record Backend (Data : Type 0) : Type 0 where
  pub objects : List (ℕ × WitnessWithInfo Data)
  pub next_object : ℕ
  pub pair_cache : List (ℕ × ℕ)
  pub jobs : List (Job Data)
  pub reports : List (RawReport Data)

-- The fields that do not change, ParseHTTP, the plugins (AkitaPlugin.Transform changes its argument
-- whether or not it fails), and the two walks over a method by the visitors of data_masks/redactor.go,
-- whose order is the visitor library's.
pub record Setup (Data : Type 0) : Type 0 where
  pub library : CaptureLibrary Data
  pub hostnames_env : String
  pub send_witness_payloads : Bool
  pub always_capture_payloads_paths : List (String → Bool)
  pub parse_http : Content → Option (PartialWitness Data)
  pub plugins : List (Method Data → Method Data × Option Error)
  pub apply_zero_primitives : Method Data → Method Data
  pub apply_redact_sensitive : Method Data → Method Data

module _ {Data : Type 0} where
  unfoldable pub new_backend : Backend Data
  new_backend = record { objects = []; next_object = 0; pair_cache = []; jobs = []; reports = [] }

  unfoldable pub with_obfuscation : Obfuscation → Method Data → Method Data
  with_obfuscation o m = record m { meta = record m.meta { obfuscation = o } }

  -- The loop over the plugins: whether all of them succeeded, and what they made of the method.
  unfoldable pub transform :
      List (Method Data → Method Data × Option Error) → Method Data → Method Data × Bool
  transform [] m = (m, true)
  transform (p ∷ ps) m =
      let rest = transform ps (p m).0 in elim (p m).1 [ none ↦ rest | some _ ↦ ((p m).0, false) ]

  -- The object of a first half.
  unfoldable pub new_witness : Traffic → PartialWitness Data → Bool → WitnessWithInfo Data
  new_witness t partial is_request = record {
    net_interface = t.net_interface;
    src_ip = t.src_ip;
    src_port = t.src_port % 2 ^ 16;
    dst_ip = t.dst_ip;
    dst_port = t.dst_port % 2 ^ 16;
    observation_time = t.observation_time;
    final_packet_time = t.final_packet_time;
    id = partial.pair_key;
    is_request = is_request;
    witness_flushed = false;
    witness = partial.witness;
  }

  unfoldable pub flip : WitnessWithInfo Data → WitnessWithInfo Data
  flip w = record w {
    src_ip = w.dst_ip;
    src_port = w.dst_port;
    dst_ip = w.src_ip;
    dst_port = w.src_port;
  }

  -- What Process does to the first half before it queues the pair.
  unfoldable pub combine :
      WitnessWithInfo Data → Method Data → Bool → Traffic → WitnessWithInfo Data
  unfolding flip
  combine pair partial is_request t =
      let merged = record pair { witness = merge_witness pair.witness partial } in
      let timed = compute_processing_latency merged is_request t in
      if is_request then flip timed else timed

  unfoldable pub add_report : Backend Data → RawReport Data → Backend Data
  add_report s r = record s { reports = r ∷ s.reports }

  unfoldable pub store : Backend Data → ℕ → WitnessWithInfo Data → Backend Data
  store s ref w = record s { objects = insert ref w s.objects }

  unfoldable pub add_job : Backend Data → Job Data → Backend Data
  add_job s job = record s { jobs = s.jobs ++ job ∷ [] }

module _ {Data : Type 0} (setup : Setup Data) where
  -- Redactor.ZeroAllPrimitives
  unfoldable pub zero_all_primitives : Method Data → Method Data
  unfolding with_obfuscation
  zero_all_primitives m = with_obfuscation zero_value (setup.apply_zero_primitives m)

  unfoldable pub keeps_payload : Method Data → Bool
  keeps_payload m =
      setup.send_witness_payloads
      && should_capture_payload setup.library setup.hostnames_env
          setup.always_capture_payloads_paths m

  -- What queueUpload does to the method once the plugins have succeeded.
  unfoldable pub mask : Method Data → Method Data
  mask m = if keeps_payload m then setup.apply_redact_sensitive m else zero_all_primitives m

  -- The object with this method, once the deferred function has flagged it.
  unfoldable pub flushed_with : WitnessWithInfo Data → Method Data → WitnessWithInfo Data
  flushed_with w m = record w { witness = m; witness_flushed = true }

  -- The method as the plugins see it, what they make of it, and whether none of them failed.
  unfoldable pub transformed : WitnessWithInfo Data → Method Data × Bool
  transformed w = transform setup.plugins (with_obfuscation obfuscation_none w.witness)

  unfoldable pub queue_upload : Backend Data → ℕ → WitnessWithInfo Data → Backend Data
  unfolding add_report store flushed_with transformed
  queue_upload s ref w =
      let (m, ok) = transformed w in
      if w.witness_flushed
      then store s ref w
      else if ok
      then add_report (store s ref (flushed_with w (mask m)))
          (witness_report ref (record w { witness = mask m }))
      else store s ref (flushed_with w m)
