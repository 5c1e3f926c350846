-- ===== src/Backend.antt =====
-- trace/backend_collector.go: half witnesses wait in a cache for their other half; pairs, and halves
-- that have waited too long, are masked and queued for upload. Packets of several interfaces and the
-- periodic flush run at the same time, so that a step is one operation on the cache (a sync.Map) or
-- what is done under the lock of one witness.
pub mod Capture
pub mod Reports
pub mod Queue
mod Uploads
mod Masking
mod Matching
mod Flushing
mod Tests
use postman_insights_agent.Prelude.{
  ℕ, zero, ◌%◌, ◌^◌, suc, String, Bool, true, false, not, ◌&&◌, ◌||◌, Option, none, some, List, [],
  ◌∷◌, ◌++◌, map, nat_eq, ltb, if◌then◌else◌, ◌==◌, any,
}
use postman_insights_agent.Prelude.Dict.{lookup, insert, delete}
use postman_insights_agent.Traffic.{
  Bytes, Error, Initiator, unknown_initiator, dest_initiator, EndState, TcpConnectionMetadata,
  TlsHandshakeMetadata, Content, http_request, http_response, tcp_connection, tls_handshake,
  Traffic,
}
use postman_insights_agent.Witnesses.{
  Obfuscation, obfuscation_none, zero_value, Method, HttpMeta, WitnessWithInfo, merge_witness,
  compute_processing_latency,
}
use postman_insights_agent.Backend.Reports.{
  TcpReport, TlsReport, tcp_connection_report, tls_handshake_report, RawReport, witness_report,
  tcp_report, tls_report,
}
use postman_insights_agent.Backend.Queue.{
  PartialWitness, Job, merge, keep, flush, remove, Backend, Setup, new_backend, new_witness,
  combine, add_report, store, add_job, queue_upload,
}

-- pairCacheExpiration, in nanoseconds
abbrev pub pair_cache_expiration : ℕ
pair_cache_expiration = 60000000000

-- What can happen to the collector.
pub data Event : Type 0 where
  arrives : Traffic → Event
  resumes : ℕ → Event
  visits : ℕ → ℕ → Event

module _ {Data : Type 0} where
  -- Whether a flush in progress holds the lock of the witness.
  holds_lock : ℕ → Job Data → Bool
  holds_lock ref (remove _ held) = held == ref
  holds_lock ref _ = false

  must_wait : List (Job Data) → Job Data → Bool
  unfolding holds_lock
  must_wait jobs (merge ref _ _ _) = any (holds_lock ref) jobs
  must_wait jobs (flush _ ref) = any (holds_lock ref) jobs
  must_wait jobs _ = false

  -- The list without its n-th element, and the element.
  pick : ℕ → List (Job Data) → Option (Job Data × List (Job Data))
  pick _ [] = none
  pick zero (j ∷ js) = some (j, js)
  pick (suc n) (j ∷ js) = elim (pick n js) [ none ↦ none | some (job, rest) ↦ some (job, j ∷ rest) ]

module _ {Data : Type 0} (setup : Setup Data) where
  process_http : Backend Data → Traffic → Bool → Backend Data
  unfolding store add_job
  process_http s t is_request = elim (setup.parse_http t.content) [
    | none ↦ s
    | some partial ↦ elim (lookup partial.pair_key s.pair_cache) [
      | some ref ↦
          add_job (record s { pair_cache = delete partial.pair_key s.pair_cache })
            (merge ref partial.witness is_request t)
      | none ↦
          add_job
            (record (store s s.next_object (new_witness t partial is_request)) {
              next_object = suc s.next_object;
            })
            (keep partial.pair_key s.next_object)
    ]
  ]

  -- Process, up to its first operation on the cache; always returns nil.
  process_content : Backend Data → Traffic → Content → Backend Data
  unfolding process_http add_report
  process_content s t (http_request _) = process_http s t true
  process_content s t (http_response _) = process_http s t false
  process_content s t (tcp_connection tcp) = add_report s (tcp_report (tcp_connection_report t tcp))
  process_content s t (tls_handshake tls) = add_report s (tls_report (tls_handshake_report tls))
  process_content s t _ = s

  pub process : Backend Data → Traffic → Backend Data
  unfolding process_content
  process s t = process_content s t t.content

  pub run_job : Backend Data → Job Data → Backend Data
  unfolding add_job
  run_job s (merge ref partial is_request t) = elim (lookup ref s.objects) [
    | none ↦ s
    | some pair ↦ queue_upload setup s ref (combine pair partial is_request t)
  ]
  run_job s (keep key ref) = record s { pair_cache = insert key ref s.pair_cache }
  run_job s (flush key ref) = elim (lookup ref s.objects) [
    | none ↦ s
    | some w ↦ add_job (queue_upload setup s ref w) (remove key ref)
  ]
  run_job s (remove key ref) = record s { pair_cache = delete key s.pair_cache }

  -- One goroutine goes on, unless it must wait for a lock.
  pub resume : Backend Data → ℕ → Backend Data
  unfolding must_wait pick
  resume s n = elim (pick n s.jobs) [
    | none ↦ s
    | some (job, rest) ↦ if must_wait rest job then s else run_job (record s { jobs = rest }) job
  ]

  -- flushPairCache's callback, up to the lock.
  pub visit : Backend Data → ℕ → ℕ → Backend Data
  unfolding add_job
  visit s cutoff_time key = elim (lookup key s.pair_cache) [
    | none ↦ s
    | some ref ↦ elim (lookup ref s.objects) [
      | none ↦ s
      | some w ↦ if ltb w.observation_time cutoff_time then add_job s (flush key ref) else s
    ]
  ]

  pub step : Backend Data → Event → Backend Data
  step s (arrives t) = process s t
  step s (resumes n) = resume s n
  step s (visits cutoff_time key) = visit s cutoff_time key

  pub run : Backend Data → List Event → Backend Data
  run s [] = s
  run s (e ∷ es) = run (step s e) es

  -- The callback of flushPairCache, when no other goroutine comes in between.
  flush_entry : ℕ → Backend Data → ℕ → Backend Data
  flush_entry cutoff_time s key = elim (lookup key s.pair_cache) [
    | none ↦ s
    | some ref ↦ elim (lookup ref s.objects) [
      | none ↦ s
      | some w ↦
          if ltb w.observation_time cutoff_time
          then record (queue_upload setup s ref w) { pair_cache = delete key s.pair_cache }
          else s
    ]
  ]

  flush_entries : ℕ → Backend Data → List ℕ → Backend Data
  unfolding flush_entry
  flush_entries cutoff_time s [] = s
  flush_entries cutoff_time s (key ∷ keys) =
      flush_entries cutoff_time (flush_entry cutoff_time s key) keys

  -- flushPairCache with no other goroutine at work, as Close calls it with the time of the day.
  pub flush_pair_cache : ℕ → Backend Data → Backend Data
  unfolding flush_entries
  flush_pair_cache cutoff_time s = flush_entries cutoff_time s (map (λ entry. entry.0) s.pair_cache)
