-- ===== src/Backend/Masking.antt =====
-- trace/backend_collector.go: what of a witness's payload leaves the agent.
use postman_insights_agent.Prelude.{◌≡◌, ◌⊎◌, Bool, true, nat_eq, All}
use postman_insights_agent.Traffic.{Traffic}
use postman_insights_agent.Witnesses.{Method}
use postman_insights_agent.Backend.Capture.{should_capture_payload}
use postman_insights_agent.Backend.Reports.{RawReport, witness_report}
use postman_insights_agent.Backend.Queue.{Backend, Setup, zero_all_primitives}

module _ {Data : Type 0} (setup : Setup Data) where
  abbrev pub should_capture : Method Data → Bool
  should_capture =
      should_capture_payload setup.library setup.hostnames_env setup.always_capture_payloads_paths

  -- A method whose values are zeroed, or one that is redacted because payloads are sent and this one
  -- should be captured.
  abbrev pub Masked : Method Data → Type 0
  Masked sent =
      (m : Method Data) × ((sent ≡ zero_all_primitives setup m)
        ⊎ ((setup.send_witness_payloads ≡ true)
            × (should_capture m ≡ true)
            × (sent ≡ setup.apply_redact_sensitive m)))

  abbrev pub MaskedReport : RawReport Data → Type 0
  MaskedReport (witness_report _ w) = Masked w.witness
  MaskedReport _ = Unit

  abbrev AllMasked : Backend Data → Type 0
  AllMasked s = All MaskedReport s.reports
