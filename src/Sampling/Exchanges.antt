-- ===== src/Sampling/Exchanges.antt =====
-- trace/collector.go: sampling takes a request and its response both or neither.
use postman_insights_agent.Prelude.{
  ℕ, ◌+◌, ◌≡◌, ◌∙◌, Bool, List, [], ◌∷◌, arith, if◌then◌else◌, sum_by, Bool-cases, inl, inr,
}
use postman_insights_agent.Traffic.{
  Content, http_request, http_response, Traffic, recorder, process_all,
}
use postman_insights_agent.RateLimit.{RequestKey, key_eq, key_beq_iff}
use postman_insights_agent.RateLimit.Pairing.{is_request, is_response, requests, responses}
use postman_insights_agent.Sampling.{KeyLibrary, include_sample, sample_key, sampling_collector}

module _ (lib : KeyLibrary) (threshold : ℕ) where
  abbrev sampled : RequestKey → Bool
  sampled k = include_sample lib threshold (lib.message_key k.0 k.1)

  abbrev sampled_content : Content → Bool
  sampled_content c = include_sample lib threshold (sample_key lib threshold c)

  is_request-sampled :
      (k : RequestKey) (c : Content)
      → (if sampled_content c then is_request k c else 0)
        ≡ (if sampled k then is_request k c else 0)
  unfolding sample_key
  is_request-sampled k (http_request r) = ground (arith, key_beq_iff (r.stream_id, r.seq) k)
  is_request-sampled k _ = ground arith

  is_response-sampled :
      (k : RequestKey) (c : Content)
      → (if sampled_content c then is_response k c else 0)
        ≡ (if sampled k then is_response k c else 0)
  unfolding sample_key
  is_response-sampled k (http_response r) = ground (arith, key_beq_iff (r.stream_id, r.seq) k)
  is_response-sampled k _ = ground arith

  -- What downstream has of something that the test takes as a whole or not at all.
  process_all-sum :
      (f : Content → ℕ) (on : Bool)
      → ((c : Content) → (if sampled_content c then f c else 0) ≡ (if on then f c else 0))
      → (log ts : List Traffic)
      → sum_by (λ t. f t.content) (process_all (sampling_collector lib threshold recorder) log ts)
        ≡ (if on then sum_by (λ t. f t.content) ts else 0) + sum_by (λ t. f t.content) log
  unfolding process_all
  process_all-sum f on law log [] = ground arith
  process_all-sum f on law log (t ∷ ts) = elim (Bool-cases (sampled_content t.content)) [
    | inl taken ↦
        rw taken (ground (arith, process_all-sum f on law (t ∷ log) ts, law t.content, taken))
    | inr left ↦ rw left (ground (arith, process_all-sum f on law log ts, law t.content, left))
  ]

  -- Of any packets, downstream is handed every request and every response with a given stream and
  -- sequence number, or none of either: the same hash decides for both.
  pub process_all-exchange :
      (k : RequestKey) (ts : List Traffic)
      → let log = process_all (sampling_collector lib threshold recorder) [] ts in
        let taken = include_sample lib threshold (lib.message_key k.0 k.1) in
        (requests k log ≡ (if taken then requests k ts else 0))
        × (responses k log ≡ (if taken then responses k ts else 0))
  process_all-exchange k ts = (
    process_all-sum (is_request k) (sampled k) (is_request-sampled k) [] ts ∙ omega arith,
    process_all-sum (is_response k) (sampled k) (is_response-sampled k) [] ts ∙ omega arith,
  )
