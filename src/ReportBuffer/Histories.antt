-- ===== src/ReportBuffer/Histories.antt =====
-- trace/report_buffer.go: what holds of every upload request after any history of the buffer.
use postman_insights_agent.Prelude.{
  ℕ, zero, suc, ◌≡◌, refl, ◌∙◌, Bool, false, some, List, [], ◌∷◌, arith, All, if_cases,
  option_cases, nat_cases, subst,
}
use postman_insights_agent.Backend.Reports.{RawReport, witness_report, tcp_report, tls_report}
use postman_insights_agent.Witnesses.{WitnessWithInfo}
use postman_insights_agent.ReportBuffer.{
  BufferSetup, ReportBuffer, WitnessReport, UploadRequest, too_large, add_witness, add_or_drop,
  add_witness_report, to_report, obfuscated, new_report_buffer, flush, receive, take_out,
  upload_ends, upload_back, add, Event, adds, flushes, ends, step, run, is_empty,
}
use postman_insights_agent.ReportBuffer.Rotation.{
  requests, flush-keeps, upload_ends-keeps, take_out-All, AllTaken,
}

module _ {Data : Type 0} (setup : BufferSetup Data) where
  -- No report of a witness in the request is too large.
  abbrev pub Fits : UploadRequest → Type 0
  Fits r = All (λ w. too_large setup w ≡ false) r.witnesses

  -- The request that is being filled, those on their way, and those that were uploaded.
  abbrev pub AllFit : ReportBuffer → Type 0
  AllFit buf =
      Fits buf.active_upload_report × All Fits buf.uploading × All (λ (r, _). Fits r) buf.finished

  -- What a step of the buffer keeps.
  record Inv (n : ℕ) (buf : ReportBuffer) : Type 0 where
    fits : AllFit buf
    rotates : requests buf ≡ n

  receive-AllFit : (buf : ReportBuffer) → AllFit buf → AllFit (receive buf)
  unfolding receive
  receive-AllFit buf h = nat_cases AllFit buf.free h λ n. (tt, h.1, h.2)

  flush-AllFit : (buf : ReportBuffer) → AllFit buf → AllFit (flush buf)
  unfolding flush
  flush-AllFit buf h =
      if_cases AllFit (is_empty buf.active_upload_report) (λ _. h)
        λ _.
          receive-AllFit (record buf { uploading = buf.active_upload_report ∷ buf.uploading })
            (h.0, (h.0, h.1), h.2)

  upload_ends-AllFit :
      (buf : ReportBuffer) (n : ℕ) (ok : Bool) → AllFit buf → AllFit (upload_ends buf n ok)
  unfolding upload_ends upload_back
  upload_ends-AllFit buf n ok h =
      option_cases AllFit (take_out n buf.uploading) (λ _. h)
        λ (report, rest) e.
          (let (sent, others) : AllTaken Fits (some (report, rest)) =
              subst (AllTaken Fits) e (take_out-All Fits n buf.uploading h.1) in
            let back : AllFit (upload_back buf report rest ok) = (h.0, others, (sent, h.2)) in
            if_cases AllFit buf.waiting (λ _. receive-AllFit (upload_back buf report rest ok) back)
              (λ _. back))

  add_or_drop-Inv :
      (n : ℕ) (buf : ReportBuffer) (w : WitnessWithInfo Data) (report : WitnessReport)
      → Inv n buf
      → Inv n (add_or_drop setup buf w report)
  unfolding add_or_drop add_witness_report
  add_or_drop-Inv n buf w report h =
      if_cases (Inv n) (too_large setup report) (λ _. record { fits = h.fits; rotates = h.rotates })
        λ fit. record { fits = ((fit, h.fits.0), h.fits.1, h.fits.2); rotates = h.rotates }

  add-Inv :
      (n : ℕ) (buf : ReportBuffer) (raw : RawReport Data) → Inv n buf → Inv n (add setup buf raw)
  unfolding add add_witness
  add-Inv n buf (witness_report _ w) h =
      option_cases (Inv n) (to_report setup w) (λ _. h)
        λ report _.
          if_cases (Inv n) _
            (λ _.
              option_cases (Inv n) (to_report setup (obfuscated setup w)) (λ _. h)
                λ smaller _. add_or_drop-Inv n buf (obfuscated setup w) smaller h)
            λ _. add_or_drop-Inv n buf w report h
  add-Inv n buf (tcp_report report) h = record { fits = h.fits; rotates = h.rotates }
  add-Inv n buf (tls_report report) h = record { fits = h.fits; rotates = h.rotates }

  step-Inv : (n : ℕ) (buf : ReportBuffer) (e : Event Data) → Inv n buf → Inv n (step setup buf e)
  unfolding step
  step-Inv n buf (adds raw) h = if_cases (Inv n) buf.waiting (λ _. h) (λ _. add-Inv n buf raw h)
  step-Inv n buf flushes h =
      if_cases (Inv n) buf.waiting (λ _. h)
        λ on. record {
          fits = flush-AllFit buf h.fits;
          rotates = (flush-keeps buf on).1 ∙ h.rotates;
        }
  step-Inv n buf (ends k ok) h = record {
    fits = upload_ends-AllFit buf k ok h.fits;
    rotates = (upload_ends-keeps buf k ok).1 ∙ h.rotates;
  }

  run-Inv :
      (n : ℕ) (buf : ReportBuffer) (es : List (Event Data)) → Inv n buf → Inv n (run setup buf es)
  unfolding run
  run-Inv n buf [] h = h
  run-Inv n buf (e ∷ es) h = run-Inv n (step setup buf e) es (step-Inv n buf e h)

  new_report_buffer-Inv : (n : ℕ) → Inv n (new_report_buffer n)
  unfolding new_report_buffer
  new_report_buffer-Inv zero = record { fits = (tt, tt, tt); rotates = refl }
  new_report_buffer-Inv (suc n) = record { fits = (tt, tt, tt); rotates = omega arith }

  -- In any history of a buffer made with n requests there are n requests, and no report of a witness
  -- that is uploaded, on its way or waiting for it is larger than the limit.
  pub run-fits :
      (n : ℕ) (es : List (Event Data))
      → let buf = run setup (new_report_buffer n) es in (requests buf ≡ n) × AllFit buf
  run-fits n es =
      let h = run-Inv n (new_report_buffer n) es (new_report_buffer-Inv n) in (h.rotates, h.fits)
