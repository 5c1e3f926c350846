-- ===== src/Filters/Dropping.antt =====
-- trace/filters.go: what a filter lets through, said of the history of the packets.
use postman_insights_agent.Prelude.{
  ℕ, ◌≡◌, refl, ◌∙◌, Bool, true, false, not, List, [], ◌∷◌, arith, any, nat_eq, ◌==◌, if◌then◌else◌,
}
use postman_insights_agent.Traffic.{
  HttpRequest, Content, http_request, http_response, Traffic, recorder, process_all,
}
use postman_insights_agent.Filters.{
  RequestFilter, forward, process_content, process, request_filter,
}

module _ (to_witness_id : ℕ → ℕ → ℕ) (filter_func : HttpRequest → Bool) where
  -- A request of this identifier that the filter rejects.
  abbrev pub rejects : ℕ → Content → Bool
  rejects id (http_request c) =
      if filter_func c then false else to_witness_id c.stream_id c.seq == id
  rejects id _ = false

  -- The description: a request is kept if the filter accepts it, a response unless a request of
  -- its identifier was rejected before, and anything else is kept.
  abbrev pub is_kept : List Traffic → Content → Bool
  is_kept earlier (http_request c) = filter_func c
  is_kept earlier (http_response c) =
      not (any (λ t. rejects (to_witness_id c.stream_id c.seq) t.content) earlier)
  is_kept earlier _ = true

  -- What downstream has recorded, the latest first, after these packets.
  pub recorded : List Traffic → List Traffic → List Traffic → List Traffic
  recorded log earlier [] = log
  recorded log earlier (t ∷ ts) =
      recorded (if is_kept earlier t.content then t ∷ log else log) (t ∷ earlier) ts

  -- The set holds the identifiers of the rejected requests, and no other.
  abbrev Remembers : RequestFilter (List Traffic) → List Traffic → Type 0
  Remembers fc earlier =
      (id : ℕ) → any (λ x. x == id) fc.filtered_ids ≡ any (λ t. rejects id t.content) earlier

  process-kept :
      (fc : RequestFilter (List Traffic)) (earlier : List Traffic) (t : Traffic) (c : Content)
      → t.content ≡ c
      → Remembers fc earlier
      → ((process_content to_witness_id filter_func recorder fc t c).0.next
          ≡ (if is_kept earlier c then t ∷ fc.next else fc.next))
        × Remembers (process_content to_witness_id filter_func recorder fc t c).0 (t ∷ earlier)
  unfolding process_content forward
  process-kept fc earlier t (http_request c) e h = (ground arith, λ id. rw e (ground (arith, h id)))
  process-kept fc earlier t (http_response c) e h =
      (ground (arith, h (to_witness_id c.stream_id c.seq)), λ id. rw e (ground (arith, h id)))
  process-kept fc earlier t _ e h = (refl, λ id. rw e (h id))

  process_all-recorded :
      (fc : RequestFilter (List Traffic)) (earlier ts : List Traffic)
      → Remembers fc earlier
      → (process_all (request_filter to_witness_id filter_func recorder) fc ts).next
        ≡ recorded fc.next earlier ts
  unfolding process_all recorded process
  process_all-recorded fc earlier [] h = refl
  process_all-recorded fc earlier (t ∷ ts) h =
      let step = process-kept fc earlier t t.content refl h in
      process_all-recorded (process_content to_witness_id filter_func recorder fc t t.content).0
        (t ∷ earlier) ts step.1
      ∙ rw step.0

  -- From a new filter on, whatever it filters by, the packets that reach the next collector are those that the description
  -- keeps, each once and in the order of their arrival.
  pub request_filter-recorded :
      (ts : List Traffic)
      → (process_all
          (request_filter to_witness_id filter_func recorder)
          (record { next = []; filtered_ids = [] })
          ts).next
        ≡ recorded [] [] ts
  request_filter-recorded ts =
      process_all-recorded (record { next = []; filtered_ids = [] }) [] ts (λ id. refl)
