-- ===== src/RateLimit/Pairing.antt =====
-- trace/rate_limit.go: a response is collected only for a request that was collected.
use postman_insights_agent.Prelude.{
  ℕ, ◌+◌, ◌≤◌, ◌≡◌, refl, Bool, Option, none, some, List, [], ◌∷◌, arith, if◌then◌else◌, ◌==◌,
  sum_by, if_cases, option_cases, ltb,
}
use postman_insights_agent.Prelude.Dict.{
  lookup, insert, Distinct, lookup-insert, lookup-delete, insert-Distinct, delete-Distinct,
}
use postman_insights_agent.Traffic.{
  HttpRequest, HttpResponse, Content, http_request, http_response, Traffic, recorder,
}
use postman_insights_agent.RateLimit.{
  Config, SharedRateLimit, RequestKey, key_eq, key_beq_iff, Limiter, expire_requests, offer_epoch,
  new_limiter, hand_on, process_request, process_response, process_content, check_epoch, process,
  allow_http_request, allow_other,
}

abbrev one_if : Bool → ℕ
one_if b = if b then 1 else 0

abbrev pub is_request : RequestKey → Content → ℕ
is_request k (http_request r) = one_if ((r.stream_id, r.seq) == k)
is_request k _ = 0

abbrev pub is_response : RequestKey → Content → ℕ
is_response k (http_response r) = one_if ((r.stream_id, r.seq) == k)
is_response k _ = 0

-- How many requests, and responses, of the key were handed on.
abbrev pub requests : RequestKey → List Traffic → ℕ
requests k = sum_by λ t. is_request k t.content

abbrev pub responses : RequestKey → List Traffic → ℕ
responses k = sum_by λ t. is_response k t.content

abbrev pub known : Option ℕ → ℕ
known none = 0
known (some _) = 1

-- What a forgetful map may still say of a key.
expire_requests-lookup :
    (threshold : ℕ) (k : RequestKey) (m : List (RequestKey × ℕ))
    → Distinct m
    → lookup k (expire_requests threshold m)
      ≡ (elim (lookup k m) [ none ↦ none | some v ↦ if ltb v threshold then none else some v ])
unfolding lookup expire_requests
expire_requests-lookup th k [] d = refl
expire_requests-lookup th k ((j, v) ∷ m) d =
    ground (arith, expire_requests-lookup th k m d.1, key_beq_iff j k, d.0)

-- No key has two arrival times, and the responses handed on, and the request still waiting for
-- one, are no more than the requests handed on.
pub record Paired (k : RequestKey) (c : Limiter (List Traffic)) : Type 0 where
  pub distinct : Distinct c.request_arrival_times
  pub balance : responses k c.next + known (lookup k c.request_arrival_times) ≤ requests k c.next

-- What a limiter goes through. The shared state is whatever the other collectors and the timers
-- have made of it by then.
pub data Event : Type 0 where
  arrives : SharedRateLimit → Traffic → ℕ → Event
  epoch_starts : ℕ → Event

module _ (average : ℕ → ℕ → ℕ) (config : Config) where
  pub step : Limiter (List Traffic) → Event → Limiter (List Traffic)
  step c (arrives r pnt now) = (process average recorder r c pnt now).1
  step c (epoch_starts epoch_start) = offer_epoch config epoch_start c

  pub run : Limiter (List Traffic) → List Event → Limiter (List Traffic)
  run c [] = c
  run c (e ∷ es) = run (step c e) es

module _ (average : ℕ → ℕ → ℕ) (k : RequestKey) where
  collect-Paired :
      (c : Limiter (List Traffic)) (t : Traffic) (req : HttpRequest)
      → t.content ≡ http_request req
      → Paired k c
      → Paired k (record (hand_on average recorder c t) {
        request_arrival_times =
            insert (req.stream_id, req.seq) t.observation_time c.request_arrival_times;
      })
  unfolding hand_on
  collect-Paired c t req e h = record {
    distinct = insert-Distinct _ _ c.request_arrival_times h.distinct;
    balance = ground (
      arith,
      h.balance,
      lookup-insert (req.stream_id, req.seq) k t.observation_time c.request_arrival_times,
    );
  }

  process_request-Paired :
      (r : SharedRateLimit) (c : Limiter (List Traffic)) (t : Traffic) (req : HttpRequest) (now : ℕ)
      → t.content ≡ http_request req
      → Paired k c
      → Paired k (process_request average recorder r c t req now).1
  unfolding process_request
  process_request-Paired r c t req now e h =
      if_cases (Paired k) (allow_http_request average r now).1 (λ _. collect-Paired c t req e h)
        (λ _. record { distinct = h.distinct; balance = h.balance })

  process_response-Paired :
      (c : Limiter (List Traffic)) (t : Traffic) (resp : HttpResponse)
      → t.content ≡ http_response resp
      → Paired k c
      → Paired k (process_response average recorder c t resp)
  unfolding process_response hand_on
  process_response-Paired c t resp e h =
      option_cases (Paired k) (lookup (resp.stream_id, resp.seq) c.request_arrival_times) (λ _. h)
        λ v found. record {
          distinct = delete-Distinct _ c.request_arrival_times h.distinct;
          balance = ground (
            arith,
            h.balance,
            lookup-delete (resp.stream_id, resp.seq) k c.request_arrival_times,
            key_beq_iff (resp.stream_id, resp.seq) k,
          );
        }

  process_content-Paired :
      (r : SharedRateLimit) (c : Limiter (List Traffic)) (t : Traffic) (content : Content) (now : ℕ)
      → t.content ≡ content
      → Paired k c
      → Paired k (process_content average recorder r c t content now).1
  unfolding process_content hand_on allow_other
  process_content-Paired r c t (http_request req) now e h = process_request-Paired r c t req now e h
  process_content-Paired r c t (http_response resp) now e h = process_response-Paired c t resp e h
  process_content-Paired r c t _ now e h =
      if_cases (Paired k) r.sample_interval_active
        (λ _. record { distinct = h.distinct; balance = rw e (omega (arith, h.balance)) }) (λ _. h)

  expire_requests-Distinct :
      (threshold : ℕ) (m : List (RequestKey × ℕ))
      → Distinct m
      → Distinct (expire_requests threshold m)
  unfolding expire_requests
  expire_requests-Distinct th [] d = tt
  expire_requests-Distinct th ((j, v) ∷ m) d =
      ground (arith, expire_requests-Distinct th m d.1, expire_requests-lookup th j m d.1)

  check_epoch-Paired :
      (c : Limiter (List Traffic)) → Paired k c → Paired k (check_epoch average recorder c)
  unfolding check_epoch
  check_epoch-Paired c h =
      option_cases (Paired k) c.epoch_ch (λ _. h)
        λ threshold _. record {
          distinct = expire_requests-Distinct threshold c.request_arrival_times h.distinct;
          balance = ground (
            arith,
            h.balance,
            expire_requests-lookup threshold k c.request_arrival_times h.distinct,
          );
        }

  step-Paired :
      (config : Config) (c : Limiter (List Traffic)) (e : Event)
      → Paired k c
      → Paired k (step average config c e)
  unfolding step process offer_epoch
  step-Paired config c (arrives r t now) h =
      check_epoch-Paired _ (process_content-Paired r c t t.content now refl h)
  step-Paired config c (epoch_starts start) h =
      option_cases (Paired k) c.epoch_ch
        (λ _. record { distinct = h.distinct; balance = h.balance }) (λ _ _. h)

  run-Paired :
      (config : Config) (c : Limiter (List Traffic)) (es : List Event)
      → Paired k c
      → Paired k (run average config c es)
  unfolding run
  run-Paired config c [] h = h
  run-Paired config c (e ∷ es) h =
      run-Paired config (step average config c e) es (step-Paired config c e h)

  -- In any history, whatever the shared limit allows and whenever epochs start, no more responses
  -- of a key are handed on than requests of that key; a request that still waits is counted.
  pub responses-le-requests :
      (config : Config) (es : List Event)
      → let c = run average config (new_limiter average recorder []) es in
        responses k c.next + known (lookup k c.request_arrival_times) ≤ requests k c.next
  unfolding new_limiter lookup
  responses-le-requests config es =
      (run-Paired config (new_limiter average recorder []) es
        (record { distinct = tt; balance = omega arith })).balance
