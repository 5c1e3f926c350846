-- ===== src/RateLimit/Tests.antt =====
-- trace/rate_limit.go: a limit of two witnesses an epoch.
use postman_insights_agent.Prelude.{
  ℕ, ◌+◌, ◌-◌, ◌*◌, ◌/◌, ◌≤◌, ◌≡◌, false, none, List, [], ◌∷◌, min, length, ltb,
}
use postman_insights_agent.Prelude.Dict.{lookup}
use postman_insights_agent.Traffic.{Content, http_request, http_response, Traffic, recorder}
use postman_insights_agent.RateLimit.{
  Config, SharedRateLimit, new_rate_limit, start_interval, new_limiter, key_eq,
}
use postman_insights_agent.RateLimit.Budget.{
  new_rate_limit-Inv, allow_all, allow_all-start_interval,
}
use postman_insights_agent.RateLimit.Pairing.{
  Event, arrives, epoch_starts, run, requests, responses, known, responses-le-requests,
}

abbrev average : ℕ → ℕ → ℕ
average estimate len = (estimate * 7 + len * 3) / 10

abbrev int63n : ℕ → ℕ
int63n n = n - 1

abbrev config : Config
config = record { epoch_time = 300; max_duration = 60 }

abbrev limit : SharedRateLimit
limit = new_rate_limit 2 0

abbrev active : SharedRateLimit
active = start_interval limit 10

abbrev estimated : SharedRateLimit
estimated = record limit { first_estimate = false; estimated_sample_interval = 120 }

abbrev times : List ℕ
times = 11 ∷ 12 ∷ 13 ∷ []

abbrev sent : ℕ → Content → Traffic
sent time c = record {
  net_interface = "eth0";
  src_ip = [];
  src_port = 4000;
  dst_ip = [];
  dst_port = 80;
  content = c;
  observation_time = time;
  final_packet_time = time;
}

abbrev request : Traffic
request =
    sent 20 (http_request (record { stream_id = 1; seq = 1; host = ""; url = none; header = [] }))

abbrev response : Traffic
response = sent 25 (http_response (record { stream_id = 1; seq = 1; header = [] }))

abbrev history : List Event
history =
    arrives active request 20
    ∷ arrives limit response 25
    ∷ arrives limit response 26
    ∷ epoch_starts 300
    ∷ []

allow_all-start_interval_example :
    ((allow_all average (start_interval limit 10) times).1
      ≡ min (length times) limit.witnesses_per_epoch)
    × ((allow_all average (start_interval limit 10) times).0.sample_interval_active
        ≡ ltb (length times) limit.witnesses_per_epoch)
allow_all-start_interval_example =
    allow_all-start_interval average limit 10 times (new_rate_limit-Inv 2 0)

responses-le-requests_example :
    let c = run average config (new_limiter average recorder []) history in
    responses (1, 1) c.next + known (lookup (1, 1) c.request_arrival_times) ≤ requests (1, 1) c.next
responses-le-requests_example = responses-le-requests average (1, 1) config history
