-- ===== src/Supervisor/Tests.antt =====
-- cmd/supervisor.go: a child that is killed, is started again and then ends with code 3.
use postman_insights_agent.Prelude.{◌+◌, ◌≤◌, ◌≡◌, refl, true, none, some, List, [], ◌∷◌, arith}
use postman_insights_agent.Supervisor.{
  exited, failed, Event, stop, child_ended, spawn, start, run, step, dispatch, sigterm,
  signal_number,
}
use postman_insights_agent.Supervisor.Runs.{run-start}

abbrev killed_once : List Event
killed_once = child_ended (some none) ∷ spawn (some 12) ∷ child_ended (some (some 3)) ∷ []

run-start_example :
    ((run 2 (start (some 11)) killed_once).live ≤ 1)
    × ((run 2 (start (some 11)) killed_once).runs + (run 2 (start (some 11)) killed_once).spawning
        ≤ 2)
run-start_example =
    run-start 2 11 killed_once (omega arith) (omega arith) (λ e. omega (arith, e)) (omega arith)

child_code : (run 2 (start (some 11)) killed_once).phase ≡ exited 3
unfolding run start step dispatch
child_code = refl

abbrev killed_twice : List Event
killed_twice = child_ended (some none) ∷ spawn (some 12) ∷ child_ended (some none) ∷ []

-- At the limit the second death is an error.
limit_reached : (run 2 (start (some 11)) killed_twice).phase ≡ failed
unfolding run start step dispatch
limit_reached = refl

told_to_stop : (run 0 (start (some 11)) (stop sigterm true true ∷ [])).phase ≡ exited 143
unfolding run start step dispatch signal_number
told_to_stop = refl
