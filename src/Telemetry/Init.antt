-- ===== src/Telemetry/Init.antt =====
-- telemetry/telemetry.go: which client the trackers have after doInit.
use postman_insights_agent.Prelude.{◌≡◌, ◌↔◌, true, false, arith, ◌==◌, string_eq}
use postman_insights_agent.Telemetry.{
  null_client, amplitude_client, TrackingUser, RateLimitMap, Environment, declared, do_init,
  new_scoped, opted_out, amplitude_key, get_user_identity,
}

-- After doInit, in every environment the root tracker has the null client, although a scoped tracker
-- has the amplitude client exactly when telemetry is not opted out of, there is a key, the client
-- could be made and a user was found.
pub do_init-clients :
    (env : Environment) (limits : RateLimitMap) (user : TrackingUser)
    → ((do_init env declared limits).root_tracker.analytics_client ≡ null_client)
      × ((new_scoped (do_init env declared limits) user).analytics_client ≡ amplitude_client
          ↔ (opted_out env ≡ false)
            × ((amplitude_key env == "") ≡ false)
            × (env.new_client_fails ≡ false)
            × ((get_user_identity env true).1 ≡ false))
unfolding do_init new_scoped
do_init-clients env limits user = ground arith
