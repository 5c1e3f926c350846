-- ===== src/Backend/Uploads.antt =====
-- trace/backend_collector.go: no witness is queued for upload twice.
use postman_insights_agent.Prelude.{
  ℕ, suc, ◌≤◌, ◌≡◌, refl, sym, ◌∙◌, subst, ◌⊎◌, inl, inr, Bool-cases, Bool, true, false, Option,
  none, some, List, [], ◌∷◌, arith, nat_eq, if◌then◌else◌, ◌==◌, sum_by, if_cases, option_cases,
  nat_beq_iff,
}
use postman_insights_agent.Prelude.Dict.{lookup, insert, lookup-insert}
use postman_insights_agent.Traffic.{
  Traffic, Content, http_request, http_response, tcp_connection, tls_handshake,
}
use postman_insights_agent.Witnesses.{
  WitnessWithInfo, Method, compute_processing_latency, with_latency,
}
use postman_insights_agent.Backend.Reports.{RawReport, witness_report}
use postman_insights_agent.Backend.Queue.{
  transformed, flushed_with, mask, Backend, Setup, Job, merge, keep, flush, remove, new_backend,
  store, queue_upload, combine, flip, add_job, add_report, new_witness,
}
use postman_insights_agent.Backend.{
  Event, arrives, resumes, visits, process, process_content, process_http, run_job, resume, visit,
  step, run, pick, must_wait,
}

abbrev flag : Bool → ℕ
flag b = if b then 1 else 0

module _ {Data : Type 0} where
  abbrev pub is_upload_of : ℕ → RawReport Data → ℕ
  is_upload_of ref (witness_report r _) = if r == ref then 1 else 0
  is_upload_of ref _ = 0

  -- How often the witness of this number was queued.
  abbrev pub uploads : ℕ → Backend Data → ℕ
  uploads ref s = sum_by (is_upload_of ref) s.reports

  abbrev pub flushes : Option (WitnessWithInfo Data) → ℕ
  flushes none = 0
  flushes (some w) = if w.witness_flushed then 1 else 0

  -- What was queued is flagged, and numbers are given once.
  pub record Inv (s : Backend Data) : Type 0 where
    pub counted : (ref : ℕ) → uploads ref s ≤ flushes (lookup ref s.objects)
    pub unused : (ref : ℕ) → s.next_object ≤ ref → lookup ref s.objects ≡ none

  compute_processing_latency-flushed :
      (w : WitnessWithInfo Data) (is_request : Bool) (t : Traffic)
      → (compute_processing_latency w is_request t).witness_flushed ≡ w.witness_flushed
  unfolding compute_processing_latency with_latency
  compute_processing_latency-flushed w is_request t = ground arith

  combine-flushed :
      (w : WitnessWithInfo Data) (m : Method Data) (is_request : Bool) (t : Traffic)
      → (combine w m is_request t).witness_flushed ≡ w.witness_flushed
  unfolding combine flip
  combine-flushed w m true t = compute_processing_latency-flushed _ true t
  combine-flushed w m false t = compute_processing_latency-flushed _ false t

  stored :
      (s : Backend Data) (ref r : ℕ) (w w' : WitnessWithInfo Data)
      → lookup ref s.objects ≡ some w
      → ((ref ≡ r) × (lookup r s.objects ≡ some w) × (lookup r (insert ref w' s.objects) ≡ some w'))
        ⊎ (((ref == r) ≡ false) × (lookup r (insert ref w' s.objects) ≡ lookup r s.objects))
  stored s ref r w w' found = elim (Bool-cases (ref == r)) [
    | inl e ↦
        let same : ref ≡ r = (nat_beq_iff ref r).0 e in
        inl (
          same,
          subst (λ x. lookup x s.objects ≡ some w) same found,
          ground (arith, e, lookup-insert ref r w' s.objects),
        )
    | inr e ↦ inr (e, ground (arith, e, lookup-insert ref r w' s.objects))
  ]

  -- Changing an object does not clear its flag.
  store-Inv :
      (s : Backend Data) (ref : ℕ) (w w' : WitnessWithInfo Data)
      → lookup ref s.objects ≡ some w
      → flag w.witness_flushed ≤ flag w'.witness_flushed
      → Inv s
      → Inv (store s ref w')
  unfolding store
  store-Inv s ref w w' found same h = record {
    counted = λ r. elim (stored s ref r w w' found) [
      | inl (e, before, after) ↦ ground (arith, h.counted r, before, after, same)
      | inr (e, after) ↦ ground (arith, h.counted r, after)
    ];
    unused = λ r l. elim (stored s ref r w w' found) [
      | inl (e, before, after) ↦ absurd (ground (arith, h.unused r l, before))
      | inr (e, after) ↦ after ∙ h.unused r l
    ];
  }

  -- A report of an object that was not flagged, and is from now on.
  upload-Inv :
      (s : Backend Data) (ref : ℕ) (w w' x : WitnessWithInfo Data)
      → lookup ref s.objects ≡ some w
      → w.witness_flushed ≡ false
      → w'.witness_flushed ≡ true
      → Inv s
      → Inv (add_report (store s ref w') (witness_report ref x))
  unfolding store add_report
  upload-Inv s ref w w' x found was is h = record {
    counted = λ r. elim (stored s ref r w w' found) [
      | inl (e, before, after) ↦ ground (arith, h.counted r, before, after, was, is)
      | inr (e, after) ↦ ground (arith, h.counted r, after, e)
    ];
    unused = λ r l. elim (stored s ref r w w' found) [
      | inl (e, before, after) ↦ absurd (ground (arith, h.unused r l, before))
      | inr (e, after) ↦ after ∙ h.unused r l
    ];
  }

  -- A first half gets the next number.
  allocate-Inv :
      (s : Backend Data) (w : WitnessWithInfo Data)
      → Inv s
      → Inv (record (store s s.next_object w) { next_object = suc s.next_object })
  unfolding store
  allocate-Inv s w h = record {
    counted = λ r. elim (Bool-cases (s.next_object == r)) [
      | inl e ↦
          let same : s.next_object ≡ r = (nat_beq_iff _ _).0 e in
          ground (arith, h.counted r, h.unused r (omega (arith, same)))
      | inr e ↦ ground (arith, h.counted r, e, lookup-insert s.next_object r w s.objects)
    ];
    unused = λ r l. ground (
      arith,
      lookup-insert s.next_object r w s.objects,
      h.unused r (omega (arith, l)),
      nat_beq_iff s.next_object r,
    );
  }

module _ {Data : Type 0} (setup : Setup Data) where
  queue_upload-Inv :
      (s : Backend Data) (ref : ℕ) (w w' : WitnessWithInfo Data)
      → lookup ref s.objects ≡ some w
      → w'.witness_flushed ≡ w.witness_flushed
      → Inv s
      → Inv (queue_upload setup s ref w')
  unfolding queue_upload flushed_with
  queue_upload-Inv s ref w w' found same h =
      let (m, ok) = transformed setup w' in
      if_cases Inv w'.witness_flushed (λ _. store-Inv s ref w w' found (ground arith) h)
        λ e.
          if_cases Inv ok
            (λ _.
              upload-Inv s ref w (flushed_with setup w' (mask setup m))
                (record w' { witness = mask setup m }) found (sym same ∙ e) refl h)
            λ _. store-Inv s ref w (flushed_with setup w' m) found (ground arith) h

  process_http-Inv :
      (s : Backend Data) (t : Traffic) (is_request : Bool)
      → Inv s
      → Inv (process_http setup s t is_request)
  unfolding process_http add_job
  process_http-Inv s t is_request h =
      option_cases Inv (setup.parse_http t.content) (λ _. h)
        λ partial _.
          option_cases Inv (lookup partial.pair_key s.pair_cache)
            (λ _.
              (let a = allocate-Inv s (new_witness t partial is_request) h in
                record { counted = a.counted; unused = a.unused }))
            λ ref _. record { counted = h.counted; unused = h.unused }

  process-Inv :
      (s : Backend Data) (t : Traffic) (content : Content)
      → Inv s
      → Inv (process_content setup s t content)
  unfolding process_content add_report
  process-Inv s t (http_request _) h = process_http-Inv s t true h
  process-Inv s t (http_response _) h = process_http-Inv s t false h
  process-Inv s t (tcp_connection _) h = record {
    counted = λ ref. omega (arith, h.counted ref);
    unused = h.unused;
  }
  process-Inv s t (tls_handshake _) h = record {
    counted = λ ref. omega (arith, h.counted ref);
    unused = h.unused;
  }
  process-Inv s t _ h = h

  run_job-Inv : (s : Backend Data) (job : Job Data) → Inv s → Inv (run_job setup s job)
  unfolding run_job add_job
  run_job-Inv s (merge ref m is_request t) h =
      option_cases Inv (lookup ref s.objects) (λ _. h)
        λ w found. queue_upload-Inv s ref w _ found (combine-flushed w m is_request t) h
  run_job-Inv s (keep key ref) h = record { counted = h.counted; unused = h.unused }
  run_job-Inv s (flush key ref) h =
      option_cases Inv (lookup ref s.objects) (λ _. h)
        λ w found.
          (let q = queue_upload-Inv s ref w w found refl h in
            record { counted = q.counted; unused = q.unused })
  run_job-Inv s (remove key ref) h = record { counted = h.counted; unused = h.unused }

  resume-Inv : (s : Backend Data) (n : ℕ) → Inv s → Inv (resume setup s n)
  unfolding resume
  resume-Inv s n h =
      option_cases Inv (pick n s.jobs) (λ _. h)
        λ (job, rest) _.
          if_cases Inv (must_wait rest job) (λ _. h)
            λ _. run_job-Inv _ job (record { counted = h.counted; unused = h.unused })

  visit-Inv : (s : Backend Data) (cutoff_time key : ℕ) → Inv s → Inv (visit setup s cutoff_time key)
  unfolding visit add_job
  visit-Inv s cutoff_time key h =
      option_cases Inv (lookup key s.pair_cache) (λ _. h)
        λ ref _.
          option_cases Inv (lookup ref s.objects) (λ _. h)
            λ w _. if_cases Inv _ (λ _. record { counted = h.counted; unused = h.unused }) (λ _. h)

  run-Inv : (s : Backend Data) (es : List Event) → Inv s → Inv (run setup s es)
  unfolding run step process
  run-Inv s [] h = h
  run-Inv s (arrives t ∷ es) h = run-Inv (process setup s t) es (process-Inv s t t.content h)
  run-Inv s (resumes n ∷ es) h = run-Inv (resume setup s n) es (resume-Inv s n h)
  run-Inv s (visits cutoff_time key ∷ es) h =
      run-Inv (visit setup s cutoff_time key) es (visit-Inv s cutoff_time key h)

  new_backend-Inv : Inv {Data = Data} new_backend
  unfolding new_backend lookup
  new_backend-Inv = record { counted = λ ref. omega arith; unused = λ ref l. refl }

  -- In any history, whatever the other goroutines do in between, every witness is queued for upload
  -- at most once.
  pub uploads-le-one : (es : List Event) (ref : ℕ) → uploads ref (run setup new_backend es) ≤ 1
  uploads-le-one es ref =
      let h = run-Inv new_backend es new_backend-Inv in ground (arith, h.counted ref)
