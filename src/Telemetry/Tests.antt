-- ===== src/Telemetry/Tests.antt =====
-- telemetry/telemetry.go: trackers on concrete environments and calls.
use postman_insights_agent.Prelude.{
  ℕ, ◌+◌, ◌*◌, ◌≤◌, ◌≡◌, ◌↔◌, refl, String, true, false, none, some, List, [], ◌∷◌, arith, ◌==◌,
  string_eq, sum_by,
}
use postman_insights_agent.Prelude.Dict.{lookup, insert}
use postman_insights_agent.Telemetry.{
  TrackerImpl, null_client, amplitude_client, no_user, Environment, Call, declared, do_init,
  new_scoped, opted_out, amplitude_key, get_user_identity, run, rate_limit_error, rate_limit,
  rate_limit_duration, try_tracking_event,
}
use postman_insights_agent.Telemetry.Init.{do_init-clients}
use postman_insights_agent.Telemetry.Limit.{backlog, counted, called, run-conserves, events-apart}

-- An official build, with an account.
abbrev environment : Environment
environment = record {
  parse_bool = λ _. none;
  concat = λ a b. if_empty a b;
  akita_disable_telemetry = "";
  agent_disable_telemetry = "";
  amplitude_write_key = "";
  default_amplitude_key = "key";
  new_client_fails = false;
  distinct_id = "";
  credentials_present = true;
  user_by_api = some (record { user_id = "7"; team_id = "8" });
  distinct_id_from_credentials = "";
  local_user = none;
  local_host = none;
}
  where
    if_empty : String → String → String
    if_empty a b = b

do_init-clients_example :
    ((do_init environment declared []).root_tracker.analytics_client ≡ null_client)
    × ((new_scoped (do_init environment declared []) no_user).analytics_client ≡ amplitude_client
        ↔ (opted_out environment ≡ false)
          × ((amplitude_key environment == "") ≡ false)
          × (environment.new_client_fails ≡ false)
          × ((get_user_identity environment true).1 ≡ false))
do_init-clients_example = do_init-clients environment [] no_user

scoped_tracker_sends :
    (new_scoped (do_init environment declared []) no_user).analytics_client ≡ amplitude_client
unfolding do_init new_scoped
scoped_tracker_sends = refl

abbrev seconds : ℕ → ℕ
seconds n = n * 1_000_000_000

abbrev parser_error : ℕ → Call
parser_error time = record { in_context = "parser"; start = time; checked = time }

abbrev early : List Call
early = parser_error (seconds 1) ∷ parser_error (seconds 30) ∷ []

abbrev tracker : TrackerImpl
tracker = declared.root_tracker

run-conserves_example :
    sum_by (counted "parser") (run tracker early).1
      + backlog "parser" (run tracker early).0.rate_limit_map
    ≡ backlog "parser" tracker.rate_limit_map + sum_by (called "parser") early
run-conserves_example = run-conserves "parser" tracker early

second_event : backlog "parser" (run tracker early).0.rate_limit_map ≡ 1
unfolding run rate_limit_error rate_limit lookup insert
second_event = refl

abbrev waiting : List Call
waiting = parser_error (seconds 30) ∷ []

first_sent :
    (rate_limit_error tracker (parser_error (seconds 1))).1
    ≡ some (try_tracking_event tracker "Operation - Rate Limited" "parser" 1)
unfolding rate_limit_error rate_limit lookup
first_sent = refl

later_sent :
    (rate_limit_error
      (run (rate_limit_error tracker (parser_error (seconds 1))).0 waiting).0
      (parser_error (seconds 70))).1
    ≡ some (try_tracking_event tracker "Operation - Rate Limited" "parser" 2)
unfolding run rate_limit_error rate_limit lookup insert
later_sent = refl

events-apart_example : seconds 1 + rate_limit_duration ≤ seconds 70
events-apart_example =
    events-apart tracker 0 (parser_error (seconds 1)) waiting (parser_error (seconds 70))
      (omega arith) refl first_sent later_sent
