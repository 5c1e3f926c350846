-- ===== src/RateLimit/System/Tests.antt =====
-- trace/rate_limit.go: two collectors share a limit of two witnesses.
use postman_insights_agent.Prelude.{ℕ, ◌*◌, ◌≤◌, refl, none, List, [], ◌∷◌}
use postman_insights_agent.Traffic.{http_request, Traffic, recorder}
use postman_insights_agent.RateLimit.{Config}
use postman_insights_agent.RateLimit.System.{
  SystemEvent, interval_starts, epoch_starts, makes_collector, packet_arrives, closes_collector,
  stops, new_system, system_run,
}
use postman_insights_agent.RateLimit.System.Spending.{all_handed}
use postman_insights_agent.RateLimit.System.Shared.{starts, all_handed-le}

abbrev average : ℕ → ℕ → ℕ
average estimate len = len

abbrev config : Config
config = record { epoch_time = 300; max_duration = 60 }

abbrev request : ℕ → Traffic
request n = record {
  net_interface = "lo";
  src_ip = [];
  src_port = 5000;
  dst_ip = [];
  dst_port = 443;
  content = http_request (record { stream_id = 7; seq = n; host = ""; url = none; header = [] });
  observation_time = n;
  final_packet_time = n;
}

abbrev history : List (SystemEvent (List Traffic))
history =
    makes_collector []
    ∷ makes_collector []
    ∷ interval_starts 1
    ∷ packet_arrives 0 (request 2) 2
    ∷ packet_arrives 1 (request 3) 3
    ∷ packet_arrives 0 (request 4) 4
    ∷ epoch_starts 300 300
    ∷ closes_collector 0
    ∷ stops
    ∷ []

all_handed-le_example :
    let start = new_system average config (λ n. 0) recorder 2 0 in
    all_handed (system_run average config (λ n. 0) recorder start history).collectors
    ≤ starts history * start.rate_limit.witnesses_per_epoch
all_handed-le_example =
    all_handed-le average config (λ n. 0) 2 0 history
      (refl, (refl, (tt, (tt, (tt, (tt, (tt, (tt, (tt, tt)))))))))
