-- ===== src/ReportBuffer/Limits.antt =====
-- trace/report_buffer.go: the limit on the size of one witness.
use postman_insights_agent.Prelude.{
  ◌≡◌, refl, ◌⊎◌, inl, inr, true, false, none, some, ◌∷◌, arith, Bool-cases, Option-cases,
}
use postman_insights_agent.Witnesses.{WitnessWithInfo}
use postman_insights_agent.ReportBuffer.{
  BufferSetup, ReportBuffer, WitnessReport, to_report, too_large, add_witness, add_or_drop,
  add_witness_report, obfuscated, oversized,
}

module _ {Data : Type 0} (setup : BufferSetup Data) where
  -- The witness that is to be uploaded in place of another: itself if it fits or if it is
  -- obfuscated anyway, and an obfuscated one otherwise.
  abbrev pub Prepared : WitnessWithInfo Data → WitnessWithInfo Data → Type 0
  Prepared w w' =
      (w' ≡ w)
      ⊎ ((r : WitnessReport) × (to_report setup w ≡ some r)
          × (too_large setup r ≡ true)
          × (setup.witnesses_have_payloads ≡ true)
          × (w' ≡ obfuscated setup w))

  -- Adding a witness has one of three outcomes, for the witness itself or, if payloads are kept and
  -- it is too large, for its obfuscated form: it cannot be marshalled and the buffer stays as it is;
  -- it is too large, and is only counted; or it is not too large, and its report is added.
  pub add_witness-outcome :
      (buf : ReportBuffer) (w : WitnessWithInfo Data)
      → (w' : WitnessWithInfo Data) × Prepared w w'
        × (((to_report setup w' ≡ none) × (add_witness setup buf w ≡ buf))
            ⊎ ((r : WitnessReport) × (to_report setup w' ≡ some r)
                × (((too_large setup r ≡ true)
                      × (add_witness setup buf w
                          ≡ record buf { packet_counts = oversized w' ∷ buf.packet_counts }))
                    ⊎ ((too_large setup r ≡ false)
                        × (add_witness setup buf w ≡ add_witness_report buf r)))))
  unfolding add_witness add_or_drop
  add_witness-outcome buf w = elim (Option-cases (to_report setup w)) [
    | inl e ↦ (w, inl refl, inl (e, ground (arith, e)))
    | inr (r, e) ↦ elim (Bool-cases (too_large setup r)) [
      | inr fits ↦ (w, inl refl, inr (r, e, inr (fits, ground (arith, e, fits))))
      | inl big ↦ elim (Bool-cases setup.witnesses_have_payloads) [
        | inr bare ↦ (w, inl refl, inr (r, e, inl (big, ground (arith, e, big, bare))))
        | inl kept ↦ elim (Option-cases (to_report setup (obfuscated setup w))) [
          | inl e' ↦ (
            obfuscated setup w,
            inr (r, e, big, kept, refl),
            inl (e', ground (arith, e, big, kept, e')),
          )
          | inr (r', e') ↦ elim (Bool-cases (too_large setup r')) [
            | inl big' ↦ (
              obfuscated setup w,
              inr (r, e, big, kept, refl),
              inr (r', e', inl (big', ground (arith, e, big, kept, e', big'))),
            )
            | inr fits' ↦ (
              obfuscated setup w,
              inr (r, e, big, kept, refl),
              inr (r', e', inr (fits', ground (arith, e, big, kept, e', fits'))),
            )
          ]
        ]
      ]
    ]
  ]
